-- ===== src/Net/Packets/Keeps.antt =====
-- What a client's packet leaves in order.
use mathlib.Core.Path.{subst}
use recreation_test.Base.{
  ℕ, ◌<◌, ◌≡◌, refl, List, [], ◌∷◌, Option, none, some, Str, Bool, Outcome, ok, err, panic, lookup,
  nat_eq, string_eq, Bool-cases, Option-cases, inl, inr,
}
use recreation_test.Base.Text.{split}
use recreation_test.Game.Config.{Config, get_connector_by_server_type}
use recreation_test.Protocol.Types.{Packet, Message, Dictionary, Slice, DecodeError}
use recreation_test.Protocol.Dictionary.Inverse.{IsInverse}
use recreation_test.Protocol.Packet.{decode, message_body}
use recreation_test.Protocol.Packet.RoundTrip.{IsNarrow, decode-IsInverse}
use recreation_test.Net.Context.{Context}
use recreation_test.Net.Selection.{LoadBalanceState}
use recreation_test.Net.Selection.Destination
use recreation_test.Net.Selection.Destination.{select_dst-Answers}
use recreation_test.Net.Clients.{WsConnection, find_client, route_event}
use recreation_test.Net.Clients.Invariant
use recreation_test.Net.Clients.Invariant.{replace-IsWellFormed}
use recreation_test.Net.Handlers.{
  HandlerError, Action, idle, sent, forwarded, handle_parts, message_handler,
}
use recreation_test.Net.Packets.{
  Environment, Connector, EventHandler, handshake_handler, handshake_ack_handler, heartbeat_handler,
  kick_handler, data_handler, setup_event_handlers, keep_client, on_message, handle_event, perform,
  conclude, run_handler, route_packet, after_decode, decode_client_pack,
}

module _ {ℓ} {S : Type ℓ} (handlers : List (Str × (S → List ℕ → Option (List ℕ) × S)))
    (intn : ℕ → ℕ) (sends : Str → Bool) (ctx : Option Context) (conf : Config) (d : Dictionary)
    (package_type : ℕ) (m : Message) (session : S) (lb : LoadBalanceState)
    (fair : (n : ℕ) → 0 < n → intn n < n) (w : Destination.IsWellFormed conf lb) where
  handle_parts-IsWellFormed :
      (parts : List Str)
      → Destination.IsWellFormed conf
          (handle_parts handlers intn sends ctx conf d package_type m session lb parts).2
  unfolding handle_parts
  handle_parts-IsWellFormed [] = w
  handle_parts-IsWellFormed (a ∷ []) = w
  handle_parts-IsWellFormed (a ∷ (b ∷ [])) = w
  handle_parts-IsWellFormed (a ∷ (b ∷ (c ∷ []))) =
      elim (Option-cases (get_connector_by_server_type conf a)) [
        | inl e ↦ rw (e, handle_parts) (select_dst-Answers intn ctx conf lb a fair w).1
        | inr (connector, e) ↦ rw (e, handle_parts) w
      ]
  handle_parts-IsWellFormed (a ∷ (b ∷ (c ∷ (x ∷ rest)))) = w

module _ {ℓ} {V : Type ℓ} where
  -- The buckets agree with the slots and the counter, the route dictionary is the same in both directions,
  -- and the balancing state fits the configuration.
  pub record IsSound (conf : Config) (c : Connector V) : Type ℓ where
    pub clients : Invariant.IsWellFormed c.manager
    pub routes : IsInverse c.dictionary
    pub balance : Destination.IsWellFormed conf c.lb_state

  -- A connector that goes on is sound.
  abbrev GoesOn : Config → Option (Connector V) → Type ℓ
  GoesOn conf none = Unit {ℓ}
  GoesOn conf (some c) = IsSound conf c

  module _ (env : Environment V) (fair : (n : ℕ) → 0 < n → env.intn n < n) (c : Connector V)
      (s : IsSound env.conf c) (cid : Str) (packet : Packet) where
    on_message-IsSound :
        (conn : WsConnection V) (m : Option Message)
        → find_client c.manager cid ≡ some conn
        → IsSound env.conf (on_message env c cid packet conn m).1
    unfolding on_message keep_client message_handler
    on_message-IsSound conn none e = s
    on_message-IsSound conn (some m) e = record {
      clients = replace-IsWellFormed c.manager s.clients cid _ conn e;
      routes = s.routes;
      balance =
          handle_parts-IsWellFormed env.connector_handlers env.intn env.sends env.context env.conf
            c.dictionary packet.type m conn.session c.lb_state fair s.balance (split b'.' m.route);
    }

    handle_event-IsSound :
        (conn : WsConnection V) (h : EventHandler)
        → find_client c.manager cid ≡ some conn
        → IsSound env.conf (handle_event env c cid packet h conn).1
    unfolding handle_event
    handle_event-IsSound conn handshake_handler e = s
    handle_event-IsSound conn handshake_ack_handler e = s
    handle_event-IsSound conn heartbeat_handler e = s
    handle_event-IsSound conn data_handler e = body_cases (message_body packet) refl
      where
        body_cases :
            (b : Outcome (Unit {0}) (Option Message))
            → message_body packet ≡ b
            → IsSound env.conf (handle_event env c cid packet data_handler conn).1
        body_cases (ok m) f = rw (f, handle_event) (on_message-IsSound conn m e)
        body_cases (err x) f = rw (f, handle_event) s
        body_cases panic f = rw (f, handle_event) s
    handle_event-IsSound conn kick_handler e = s

    perform-IsSound :
        (conn : WsConnection V) (action : Action) (c' : Connector V)
        → IsSound env.conf c'
        → GoesOn env.conf (perform cid conn action c')
    unfolding perform
    perform-IsSound conn idle c' t = record {
      clients = t.clients;
      routes = t.routes;
      balance = t.balance;
    }
    perform-IsSound conn (sent buf) c' t = elim (Bool-cases conn.write_chan_closed) [
      | inl stops ↦ rw (stops, GoesOn, perform) tt
      | inr goes_on ↦
          rw (goes_on, GoesOn, perform)
            (record { clients = t.clients; routes = t.routes; balance = t.balance })
    ]
    perform-IsSound conn (forwarded dst method m) c' t = record {
      clients = t.clients;
      routes = t.routes;
      balance = t.balance;
    }

    conclude-IsSound :
        (conn : WsConnection V) (r : Outcome HandlerError Action × Connector V)
        → IsSound env.conf r.1
        → GoesOn env.conf (conclude cid conn r)
    unfolding conclude
    conclude-IsSound conn (ok action, c') t = perform-IsSound conn action c' t
    conclude-IsSound conn (err e, c') t = record {
      clients = t.clients;
      routes = t.routes;
      balance = t.balance;
    }
    conclude-IsSound conn (panic, c') t = tt

    route_packet-IsSound : GoesOn env.conf (route_packet env c cid packet)
    unfolding route_packet route_event run_handler
    route_packet-IsSound = elim (Option-cases (find_client c.manager cid)) [
      | inl gone ↦
          rw (gone, GoesOn, route_packet, route_event)
            (record { clients = s.clients; routes = s.routes; balance = s.balance })
      | inr (conn, here) ↦ elim (Option-cases (lookup packet.type setup_event_handlers)) [
        | inl unknown ↦
            rw (here, GoesOn, route_packet, route_event)
              (rw (unknown, GoesOn, route_packet)
                (record { clients = s.clients; routes = s.routes; balance = s.balance }))
        | inr (h, known) ↦
            rw (here, GoesOn, route_packet, route_event)
              (rw (known, GoesOn, route_packet)
                (conclude-IsSound conn (handle_event env c cid packet h conn)
                  (handle_event-IsSound conn h here)))
      ]
    ]

  module _ (env : Environment V) (fair : (n : ℕ) → 0 < n → env.intn n < n)
      (narrow : IsNarrow env.unmarshal) (c : Connector V) (s : IsSound env.conf c) (cid : Str)
      (body : Slice) where
    after_decode-GoesOn :
        (r : Outcome DecodeError Packet × Dictionary)
        → IsInverse r.1
        → GoesOn env.conf (after_decode env c cid r)
    unfolding after_decode
    after_decode-GoesOn (ok packet, d) v =
        let told : IsSound env.conf (record c { dictionary = d }) = record {
          clients = s.clients;
          routes = v;
          balance = s.balance;
        } in
        route_packet-IsSound env fair (record c { dictionary = d }) told cid packet
    after_decode-GoesOn (err x, d) v = record {
      clients = s.clients;
      routes = v;
      balance = s.balance;
    }
    after_decode-GoesOn (panic, d) v = tt

    decode_client_pack-GoesOn : GoesOn env.conf (decode_client_pack env c cid body)
    unfolding decode_client_pack
    decode_client_pack-GoesOn =
        after_decode-GoesOn (decode env.inflate env.unmarshal c.dictionary body)
          (decode-IsInverse env.inflate env.unmarshal c.dictionary body narrow s.routes)

-- Whatever bytes a client sends, and whoever it is, a connector that goes on is left sound: its buckets,
-- slots and counter agree, the route dictionary is the same in both directions, and the balancing state
-- fits the configuration. The JSON decoder yields 16-bit codes, and random numbers are in their range.
pub decode_client_pack-IsSound {ℓ} :
    {V : Type ℓ} (env : Environment V) (c c' : Connector V) (cid : Str) (body : Slice)
    → ((n : ℕ) → 0 < n → env.intn n < n)
    → IsNarrow env.unmarshal
    → IsSound env.conf c
    → decode_client_pack env c cid body ≡ some c'
    → IsSound env.conf c'
decode_client_pack-IsSound env c c' cid body fair narrow s e =
    subst (GoesOn env.conf) e (decode_client_pack-GoesOn env fair narrow c s cid body)
