-- ===== src/Lib.antt =====
-- A model of the game server's core with the theorems that show what it does: the wire protocol of the
-- connector, its connections and sessions, the choice of a back-end server, and the checks at its doors.
--
-- The parts and their files:
--   Base          names that are passed on, byte strings, association lists for Go maps, results, masks
--   Protocol      framework/protocol: Tools (tools.go), and of protocol.go Dictionary (SetDictionary,
--                 GetRoute), MsgId, Message (MessageEncode, MessageDecode) and Packet (Encode, Decode)
--   Game          framework/game/config.go: the servers by type and the settings for clients
--   Net           framework/net: Hash (fnv32), Context, Strategy, Ring and Selection are
--                 load_balance_strategy.go; Session is session.go; Clients, Handlers, Serve,
--                 Packets, Workers, Batches and Remote are ws_manager.go with the Close of
--                 ws_connection.go; Connection is the goroutines of ws_connection.go, Pool is
--                 ws_connection_pool.go, Stream is stream/message.go and the PushData of session.go
--   Pusher        framework/pusher/pusher.go; Notify is UpdateUserDataNotify of core/service/user.go
--   RemoteSession framework/remote/session.go
--   Limit         common/utils/limit/rate_limiter.go
--   Discovery     common/discovery: Server (server.go), Resolver (resolver.go), Register (register.go)
--   Auth          common/interceptor/auth.go with the stored credentials
--   Jwt           common/jwts/jwt.go and the entry handler of connector/handler
--   Accounts      core/dao and core/service: Ids (redis.go), Lock and Users (user.go and account.go), with
--                 Documents, a collection of MongoDB, and Requests, lists of requests that overlap;
--                 Registration is user/internal/service/account.go
--   Gate          gate/api/user.go with framework/msError; Cors is common/middleware/cors.go
--
-- A user is registered through the gateway (Gate), which asks the user service (Accounts/Registration) and
-- signs a token (Jwt). With the token it asks to enter, on a connection whose frames its goroutines take
-- from the socket and write to it (Net/Connection).
--
-- A request passes the limiter and the capacity check (Net/Serve) and becomes a connection (Net/Clients).
-- Its packets are decoded (Protocol/Packet), and a message goes by its route to a handler of the connector
-- or to a server that the balancing picks (Net/Handlers, Net/Selection, Game/Config). What a client sends
-- goes through the queue of a worker (Net/Workers) to its event handler (Net/Packets). What other servers
-- send comes back in batches (Net/Batches) and is answered, stored or pushed (Net/Remote); a push is sent by
-- Pusher to the connectors of its users. Objects of connections come from Net/Pool.
--
-- State is a record that operations take and give back; a call under a mutex is one step. A Go call that
-- may fail or panic gives an Outcome. Numbers are natural, with the wrap-around of a width written out, and
-- an atomic counter is its bit pattern; a Go `int` that may be negative is an integer of Base/Int, of which no
-- sum is taken. Strings are their bytes. The binary search of the ring runs on as many rounds as the ring has
-- points, which is enough since each round makes the open range shorter (Net/Ring/Search); the id encoder
-- recurses on a falling number.
--
-- What overlaps is a step relation: the workers' queues, the goroutines of a connection, the pool, the
-- requests for ids and for the lock, each call of a database one step that may fail, and the goroutines of a
-- batch, which run in any order, each as one step (Net/Remote). Elsewhere an operation runs with no other in
-- between; what an overlap does to the shared data of the sessions is in Net/Clients/Overlap.
--
-- `SendMessage` on a connection whose WriteChan is closed stops the program, there as in Net/Connection, which
-- has the channel's capacity too; in Net/Packets and Net/Remote a call on a full channel counts as given.
--
-- JSON, zlib, the JWT library, etcd, Redis, MongoDB, gRPC, the web framework, the websockets and the random
-- numbers are parameters, with the laws of their calls as records (Accounts/Ids, Accounts/Lock,
-- Accounts/Documents, Gate, Gate/Cors). Not modelled: logging, metrics, start-up, files and sockets, which
-- are input and output; the routes and the other middleware of the gateway, which are wiring; the queries,
-- aggregations and records of core/dao that are passed through to MongoDB, and the types that only they
-- use; generated code. The limiter's fractions of a token are whole parts, without the rounding of float64.
pub mod Base
pub mod Protocol
pub mod Game
pub mod Net
pub mod Pusher
pub mod RemoteSession
pub mod Accounts
pub mod Limit
pub mod Discovery
pub mod Auth
pub mod Jwt
pub mod Gate
