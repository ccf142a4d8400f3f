-- ===== src/Net/Connection/Delivery.antt =====
-- What a connection delivers.
use mathlib.Core.List.{append_assoc}
use mathlib.Core.Path.{subst}
use recreation_test.Base.{
  ◌⊎◌, inl, inr, ltb→lt, if_each, ◌<◌, if_both, ℕ, ◌≤◌, ◌≡◌, refl, sym, ap, ◌∙◌, Bool, true, false,
  ltb, if◌then◌else◌, List, [], ◌∷◌, ◌++◌, length, length-append, Str, ok, err, panic, arith,
}
use recreation_test.Net.Session.{blocked}
use recreation_test.Net.Workers.{MsgPack}
use recreation_test.Net.Connection.{
  Reader, starting, looking, receiving, handing, read_ended, Writer, selecting, write_ended,
  Running, write_chan_capacity, running, shut, end_writer, send_message, WriteMove, take_message,
  ping, notice, write_next, write_message, Move, reads, writes, sends, shuts, forgets, act, Reaches,
  start, onward,
}
use recreation_test.Net.Connection.Invariant.{
  IsKept, IsOver, IsOpen, Keeps, IsSound, IsOpen-same, IsOver-same, shut-IsSound, forget-IsSound,
  read_message-Keeps, running-IsSound,
}

module _ (c : Running) (w : IsSound c) where
  written_lem :
      (buf : List ℕ) (rest : List (List ℕ))
      → c.write_chan ≡ buf ∷ rest
      → IsSound (record c { write_chan = rest; written = c.written ++ (buf ∷ []) })
  written_lem buf rest e =
      let d = record c { write_chan = rest; written = c.written ++ (buf ∷ []) } in
      record {
        dropped = w.dropped;
        over = IsOver-same c.reader c d refl w.over;
        channel = IsOpen-same c.writer c d refl refl w.channel;
        outgoing =
            append_assoc c.written (buf ∷ []) rest ∙ ap (◌++◌ c.written) (sym e) ∙ w.outgoing;
        room = omega (arith, w.room, ap length e);
        kept = w.kept;
        incoming = w.incoming;
        held = w.held;
      }

  end_writer-IsSound : c.close_chan_closed ≡ true → IsSound (end_writer c)
  unfolding end_writer
  end_writer-IsSound closed = record {
    dropped = w.dropped;
    over = IsOver-same c.reader c (end_writer c) refl w.over;
    channel = (refl, closed);
    outgoing = w.outgoing;
    room = w.room;
    kept = w.kept;
    incoming = w.incoming;
    held = w.held;
  }

  write_next-Keeps :
      (chan : List (List ℕ))
      → c.write_chan ≡ chan
      → c.write_chan_closed ≡ false
      → Keeps (write_next chan c)
  unfolding write_next
  write_next-Keeps (buf ∷ rest) e is_open = written_lem buf rest e
  write_next-Keeps [] e is_open = rw is_open tt

  write_message-Keeps : (r : Writer) (m : WriteMove) → c.writer ≡ r → Keeps (write_message r m c)
  unfolding write_message
  write_message-Keeps selecting take_message e =
      write_next-Keeps c.write_chan refl (subst (λ (r : Writer). IsOpen r c) e w.channel)
  write_message-Keeps selecting (ping fine) e = if_both IsSound fine c (shut c) w (shut-IsSound c w)
  write_message-Keeps selecting notice e =
      if_each Keeps c.close_chan_closed (ok (end_writer c)) (err blocked) end_writer-IsSound
        (λ e. tt)
  write_message-Keeps write_ended m e = tt

  accepted_lem :
      (buf : List ℕ)
      → length c.write_chan < write_chan_capacity
      → IsSound (record c {
        write_chan = c.write_chan ++ (buf ∷ []);
        accepted = c.accepted ++ (buf ∷ []);
      })
  accepted_lem buf h =
      let d = record c {
        write_chan = c.write_chan ++ (buf ∷ []);
        accepted = c.accepted ++ (buf ∷ []);
      } in
      record {
        dropped = w.dropped;
        over = IsOver-same c.reader c d refl w.over;
        channel = IsOpen-same c.writer c d refl refl w.channel;
        outgoing =
            sym (append_assoc c.written c.write_chan (buf ∷ []))
            ∙ ap (λ (l : List (List ℕ)). l ++ (buf ∷ [])) w.outgoing;
        room = omega (arith, h, length-append c.write_chan (buf ∷ []));
        kept = w.kept;
        incoming = w.incoming;
        held = w.held;
      }

  send_message-Keeps : (buf : List ℕ) → Keeps (send_message buf c)
  unfolding send_message
  send_message-Keeps buf =
      let room = ltb (length c.write_chan) write_chan_capacity in
      let d = record c {
        write_chan = c.write_chan ++ (buf ∷ []);
        accepted = c.accepted ++ (buf ∷ []);
      } in
      if_both Keeps c.write_chan_closed panic (if room then ok d else err blocked) tt (
        if_each Keeps room (ok d) (err blocked)
          (λ e. accepted_lem buf (ltb→lt (length c.write_chan) write_chan_capacity e)) (λ e. tt))

  act-Keeps : (m : Move) → Keeps (act m c)
  unfolding act
  act-Keeps (reads m) = read_message-Keeps c w c.reader m w.held
  act-Keeps (writes m) = write_message-Keeps c.writer m refl
  act-Keeps (sends buf) = send_message-Keeps buf
  act-Keeps shuts = shut-IsSound c w
  act-Keeps forgets = forget-IsSound c w

pub act-IsSound : (m : Move) (c d : Running) → IsSound c → act m c ≡ ok d → IsSound d
act-IsSound m c d w e = subst Keeps e (act-Keeps c w m)

pub Reaches-IsSound :
    (cid : Str) (taken : Bool) (c : Running) → Reaches (running cid taken) c → IsSound c
Reaches-IsSound cid taken c start = running-IsSound cid taken
Reaches-IsSound cid taken c (onward {d = before} m r e) =
    act-IsSound m before c (Reaches-IsSound cid taken before r) e

-- What has come in and is not in `ReadChan`: nothing, or the message that the reader is about to hand over,
-- or at most one that was given up when the connection was closed.
abbrev pub IsHeld : Running → List MsgPack → Type 0
IsHeld c kept =
    (kept ≡ [])
    ⊎ ((pack : MsgPack) × (c.reader ≡ handing pack) × (kept ≡ pack ∷ []))
    ⊎ ((c.reader ≡ read_ended) × (c.close_chan_closed ≡ true) × (length kept ≤ 1))

IsHeld-kept :
    (c : Running) (r : Reader) (kept : List MsgPack)
    → c.reader ≡ r
    → IsKept r kept
    → IsOver r c
    → (c.known ≡ false → c.close_chan_closed ≡ true)
    → IsHeld c kept
IsHeld-kept c starting kept e h over closed = inl h
IsHeld-kept c looking kept e h over closed = inl h
IsHeld-kept c receiving kept e h over closed = inl h
IsHeld-kept c (handing pack) kept e h over closed = inr (inl (pack, e, h))
IsHeld-kept c read_ended kept e h over closed = inr (inr (e, closed over, h))

-- However the two goroutines, the callers of `SendMessage` and those who close the connection take turns:
-- the messages that `SendMessage` took are those that were written and then those that wait, in order, and
-- at most 1024 wait; the messages that came in were put into `ReadChan` in order, but for the one that the
-- reader is about to hand over, or one at most that it gave up when the connection was closed.
pub Reaches-Delivers :
    (cid : Str) (taken : Bool) (c : Running)
    → Reaches (running cid taken) c
    → (c.written ++ c.write_chan ≡ c.accepted)
      × (length c.write_chan ≤ write_chan_capacity)
      × ((kept : List MsgPack) × (c.read_chan ++ kept ≡ c.received) × IsHeld c kept)
Reaches-Delivers cid taken c r =
    let w = Reaches-IsSound cid taken c r in
    (
      w.outgoing,
      w.room,
      (w.kept, w.incoming, IsHeld-kept c c.reader w.kept refl w.held w.over w.dropped),
    )
