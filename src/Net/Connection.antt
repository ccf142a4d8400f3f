-- ===== src/Net/Connection.antt =====
-- framework/net/ws_connection.go: the goroutines of a connection, `readMessage` and `writeMessage`, with
-- `SendMessage` and `Close`, from the end of `Run` until the object goes back to the pool. What the
-- websocket library answers is an argument of each move: whether a deadline or a ping succeeds, and what
-- `ReadMessage` returns, which may be a message also after `Close`. An error of a binary message or of the
-- write deadline is only logged. A call of `Close`, of `removeClient` and of the manager's `Close` is one
-- step; the session and the pool are in Net/Clients and Net/Pool. A move that is not ready is `blocked`.
pub mod Invariant
pub mod Delivery
pub mod Closing
pub mod Ends
pub mod Sending
mod Tests
use recreation_test.Base.{
  ℕ, ◌≡◌, Bool, true, false, ltb, if◌then◌else◌, List, [], ◌∷◌, ◌++◌, length, Option, none, some,
  Str, Outcome, ok, err, panic,
}
use recreation_test.Net.Session.{Wait, blocked}
use recreation_test.Net.Workers.{MsgPack}

-- A message by its type, of which there are more.
pub data Frame : Type 0 where
  binary_frame text_frame other_frame : List ℕ → Frame

-- Where `readMessage` is: before the deadline, at the outer `select`, in `ReadMessage`, at the inner
-- `select`, or behind its deferred call.
pub data Reader : Type 0 where
  starting looking receiving read_ended : Reader
  handing : MsgPack → Reader

-- At the `select` of `writeMessage`, or behind its deferred call.
pub data Writer : Type 0 where
  selecting write_ended : Writer

-- The fields of a connection that the goroutines use, each channel as what is in it and whether it is
-- closed, and whether the bucket has the connection. `read_chan` is all that the connection has put into
-- `ReadChan`, `written` the binary messages for which `WriteMessage` was called, and for the statements
-- `accepted` what `SendMessage` took and `received` the messages that came in.
pub record Running : Type 0 where
  pub cid : Str
  pub known : Bool
  pub close_chan_closed : Bool
  pub write_chan : List (List ℕ)
  pub write_chan_closed : Bool
  pub reader : Reader
  pub writer : Writer
  pub read_chan : List MsgPack
  pub written : List (List ℕ)
  pub accepted : List (List ℕ)
  pub received : List MsgPack

abbrev pub write_chan_capacity : ℕ
write_chan_capacity = 1024

-- A connection behind `addClient`, which has taken or closed it, and `Run`.
unfoldable pub running : Str → Bool → Running
running cid taken = record {
  cid = cid;
  known = taken;
  close_chan_closed = if taken then false else true;
  write_chan = [];
  write_chan_closed = false;
  reader = starting;
  writer = selecting;
  read_chan = [];
  written = [];
  accepted = [];
  received = [];
}

unfoldable pub shut : Running → Running
shut c = record c { close_chan_closed = true }

-- `removeClient`, and the part of the manager's `Close` for this connection.
unfoldable pub forget : Running → Running
forget c = if c.known then shut (record c { known = false }) else c

-- The deferred calls.
unfoldable pub end_reader : Running → Running
end_reader c = forget (record c { reader = read_ended })

unfoldable pub end_writer : Running → Running
end_writer c = record c { writer = write_ended; write_chan_closed = true }

unfoldable pub send_message : List ℕ → Running → Outcome Wait Running
send_message buf c =
    if c.write_chan_closed
    then panic
    else if ltb (length c.write_chan) write_chan_capacity
    then ok
        (record c { write_chan = c.write_chan ++ (buf ∷ []); accepted = c.accepted ++ (buf ∷ []) })
    else err blocked

-- A message that is handed to the inner `select`.
unfoldable pub hold : List ℕ → Running → Running
hold body c =
    let pack : MsgPack = record { cid = c.cid; body = body } in
    record c { reader = handing pack; received = c.received ++ (pack ∷ []) }

unfoldable pub on_read : Option Frame → Running → Running
on_read none c = end_reader c
on_read (some (binary_frame body)) c = hold body c
on_read (some (text_frame body)) c = hold body c
on_read (some (other_frame body)) c = record c { reader = looking }

-- What a goroutine does next: the answer to `SetReadDeadline`, the outer `select`, the answer of
-- `ReadMessage`, and the two ways through the inner `select`; a message or a ping to write, and the signal.
pub data ReadMove : Type 0 where
  deadline : Bool → ReadMove
  look : ReadMove
  receive : Option Frame → ReadMove
  hand_over : ReadMove
  give_up : ReadMove

pub data WriteMove : Type 0 where
  take_message : WriteMove
  ping : Bool → WriteMove
  notice : WriteMove

unfoldable pub read_message : Reader → ReadMove → Running → Outcome Wait Running
read_message starting (deadline fine) c =
    ok (if fine then record c { reader = looking } else end_reader c)
read_message looking look c =
    ok (if c.close_chan_closed then end_reader c else record c { reader = receiving })
read_message receiving (receive frame) c = ok (on_read frame c)
read_message (handing pack) hand_over c =
    ok (record c { reader = looking; read_chan = c.read_chan ++ (pack ∷ []) })
read_message (handing pack) give_up c =
    if c.close_chan_closed then ok (end_reader c) else err blocked
read_message reader move c = err blocked

-- The branch of a message: the next one, or the end of a closed channel.
unfoldable pub write_next : List (List ℕ) → Running → Outcome Wait Running
write_next (buf ∷ rest) c = ok (record c { write_chan = rest; written = c.written ++ (buf ∷ []) })
write_next [] c = if c.write_chan_closed then ok (end_writer (shut c)) else err blocked

unfoldable pub write_message : Writer → WriteMove → Running → Outcome Wait Running
write_message selecting take_message c = write_next c.write_chan c
write_message selecting (ping fine) c = ok (if fine then c else shut c)
write_message selecting notice c = if c.close_chan_closed then ok (end_writer c) else err blocked
write_message write_ended move c = err blocked

-- A move of a goroutine of the connection, a call of `SendMessage` or of `Close`, or the manager's `Close`.
pub data Move : Type 0 where
  reads : ReadMove → Move
  writes : WriteMove → Move
  sends : List ℕ → Move
  shuts : Move
  forgets : Move

unfoldable pub act : Move → Running → Outcome Wait Running
act (reads move) c = read_message c.reader move c
act (writes move) c = write_message c.writer move c
act (sends buf) c = send_message buf c
act shuts c = ok (shut c)
act forgets c = ok (forget c)

pub data Reaches (c : Running) : Running → Type 0 where
  start : Reaches c c
  onward : {d e : Running} (m : Move) → Reaches c d → act m d ≡ ok e → Reaches c e
