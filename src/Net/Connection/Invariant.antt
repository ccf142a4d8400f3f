-- ===== src/Net/Connection/Invariant.antt =====
-- What holds of a connection while its goroutines run.
use mathlib.Core.List.{append-nil}
use recreation_test.Base.{
  if_both, ℕ, ◌≤◌, ◌≡◌, inl, inr, refl, sym, ap, ◌∙◌, Bool, true, false, List, [], ◌∷◌, ◌++◌,
  length, Option, none, some, Str, Outcome, ok, err, panic, Bool-cases, arith,
}
use recreation_test.Net.Session.{Wait, blocked}
use recreation_test.Net.Workers.{MsgPack}
use recreation_test.Net.Connection.{
  Frame, binary_frame, text_frame, other_frame, Reader, starting, looking, receiving, read_ended,
  handing, Writer, selecting, write_ended, Running, write_chan_capacity, running, shut, forget,
  end_reader, hold, on_read, ReadMove, deadline, look, receive, hand_over, give_up, read_message,
}

-- What has come in and is not in `ReadChan`, by where the reader is.
abbrev pub IsKept : Reader → List MsgPack → Type 0
IsKept starting kept = kept ≡ []
IsKept looking kept = kept ≡ []
IsKept receiving kept = kept ≡ []
IsKept (handing pack) kept = kept ≡ pack ∷ []
IsKept read_ended kept = length kept ≤ 1

abbrev pub IsOver : Reader → Running → Type 0
IsOver read_ended c = c.known ≡ false
IsOver starting c = Unit {0}
IsOver looking c = Unit {0}
IsOver receiving c = Unit {0}
IsOver (handing pack) c = Unit {0}

abbrev pub IsOpen : Writer → Running → Type 0
IsOpen selecting c = c.write_chan_closed ≡ false
IsOpen write_ended c = (c.write_chan_closed ≡ true) × (c.close_chan_closed ≡ true)

pub record IsSound (c : Running) : Type 0 where
  pub dropped : c.known ≡ false → c.close_chan_closed ≡ true
  pub over : IsOver c.reader c
  pub channel : IsOpen c.writer c
  pub outgoing : c.written ++ c.write_chan ≡ c.accepted
  pub room : length c.write_chan ≤ write_chan_capacity
  pub kept : List MsgPack
  pub incoming : c.read_chan ++ kept ≡ c.received
  pub held : IsKept c.reader kept

pub running-IsSound : (cid : Str) (taken : Bool) → IsSound (running cid taken)
unfolding running
running-IsSound cid taken = record {
  dropped = λ e. ground (arith, e);
  over = tt;
  channel = refl;
  outgoing = refl;
  room = omega arith;
  kept = [];
  incoming = refl;
  held = refl;
}

-- A move that succeeds leaves a sound connection.
abbrev pub Keeps : Outcome Wait Running → Type 0
Keeps (ok c) = IsSound c
Keeps (err e) = Unit {0}
Keeps panic = Unit {0}

pub IsKept-short : (r : Reader) (kept : List MsgPack) → IsKept r kept → length kept ≤ 1
IsKept-short starting kept h = rw h (omega arith)
IsKept-short looking kept h = rw h (omega arith)
IsKept-short receiving kept h = rw h (omega arith)
IsKept-short (handing pack) kept h = rw h (omega arith)
IsKept-short read_ended kept h = h

IsOver-open : (r : Reader) (c : Running) → (c.known ≡ false) → IsOver r c
IsOver-open starting c h = tt
IsOver-open looking c h = tt
IsOver-open receiving c h = tt
IsOver-open (handing pack) c h = tt
IsOver-open read_ended c h = h

IsOpen-closed :
    (w : Writer) (c d : Running)
    → d.write_chan_closed ≡ c.write_chan_closed
    → d.close_chan_closed ≡ true
    → IsOpen w c
    → IsOpen w d
IsOpen-closed selecting c d e closed h = e ∙ h
IsOpen-closed write_ended c d e closed h = (e ∙ h.0, closed)

pub IsOpen-same :
    (w : Writer) (c d : Running)
    → d.write_chan_closed ≡ c.write_chan_closed
    → d.close_chan_closed ≡ c.close_chan_closed
    → IsOpen w c
    → IsOpen w d
IsOpen-same selecting c d e f h = e ∙ h
IsOpen-same write_ended c d e f h = (e ∙ h.0, f ∙ h.1)

pub IsOver-same : (r : Reader) (c d : Running) → d.known ≡ c.known → IsOver r c → IsOver r d
IsOver-same starting c d e h = tt
IsOver-same looking c d e h = tt
IsOver-same receiving c d e h = tt
IsOver-same (handing pack) c d e h = tt
IsOver-same read_ended c d e h = e ∙ h

module _ (c : Running) (w : IsSound c) where
  pub shut-IsSound : IsSound (shut c)
  unfolding shut
  shut-IsSound = record {
    dropped = λ e. refl;
    over = IsOver-same c.reader c (shut c) refl w.over;
    channel = IsOpen-closed c.writer c (shut c) refl refl w.channel;
    outgoing = w.outgoing;
    room = w.room;
    kept = w.kept;
    incoming = w.incoming;
    held = w.held;
  }

  dropped-IsSound : IsSound (record c { known = false; close_chan_closed = true })
  dropped-IsSound = record {
    dropped = λ e. refl;
    over = IsOver-open c.reader (record c { known = false; close_chan_closed = true }) refl;
    channel =
        IsOpen-closed c.writer c (record c { known = false; close_chan_closed = true }) refl refl
          w.channel;
    outgoing = w.outgoing;
    room = w.room;
    kept = w.kept;
    incoming = w.incoming;
    held = w.held;
  }

  pub forget-IsSound : IsSound (forget c)
  unfolding forget shut
  forget-IsSound = if_both IsSound c.known _ c dropped-IsSound w

  -- The connection behind the reader, if the manager does not have it any more.
  ended_lem :
      (known closed : Bool)
      → known ≡ false
      → closed ≡ true
      → IsSound (record c { reader = read_ended; known = known; close_chan_closed = closed })
  ended_lem known closed gone shut' =
      let d = record c { reader = read_ended; known = known; close_chan_closed = closed } in
      record {
        dropped = λ e. shut';
        over = gone;
        channel = IsOpen-closed c.writer c d refl shut' w.channel;
        outgoing = w.outgoing;
        room = w.room;
        kept = w.kept;
        incoming = w.incoming;
        held = IsKept-short c.reader w.kept w.held;
      }

  end_reader-IsSound : IsSound (end_reader c)
  unfolding end_reader forget shut
  end_reader-IsSound = elim (Bool-cases c.known) [
    | inl there ↦ rw there (ended_lem false true refl refl)
    | inr gone ↦ rw gone (ended_lem false c.close_chan_closed refl (w.dropped gone))
  ]

  -- The reader at another place that holds nothing.
  moved-IsSound :
      (r : Reader)
      → ((kept : List MsgPack) → kept ≡ [] → IsKept r kept)
      → IsOver r (record c { reader = r })
      → w.kept ≡ []
      → IsSound (record c { reader = r })
  moved-IsSound r empty over none_kept = record {
    dropped = w.dropped;
    over = over;
    channel = IsOpen-same c.writer c (record c { reader = r }) refl refl w.channel;
    outgoing = w.outgoing;
    room = w.room;
    kept = w.kept;
    incoming = w.incoming;
    held = empty w.kept none_kept;
  }

  hold-IsSound : (body : List ℕ) → w.kept ≡ [] → IsSound (hold body c)
  unfolding hold
  hold-IsSound body none_kept =
      let pack : MsgPack = record { cid = c.cid; body = body } in
      record {
        dropped = w.dropped;
        over = tt;
        channel = IsOpen-same c.writer c (hold body c) refl refl w.channel;
        outgoing = w.outgoing;
        room = w.room;
        kept = pack ∷ [];
        incoming =
            ap (λ (l : List MsgPack). l ++ (pack ∷ []))
              (sym (append-nil c.read_chan) ∙ ap (◌++◌ c.read_chan) (sym none_kept) ∙ w.incoming);
        held = refl;
      }

  on_read-Keeps : (frame : Option Frame) → w.kept ≡ [] → IsSound (on_read frame c)
  unfolding on_read
  on_read-Keeps none e = end_reader-IsSound
  on_read-Keeps (some (binary_frame body)) e = hold-IsSound body e
  on_read-Keeps (some (text_frame body)) e = hold-IsSound body e
  on_read-Keeps (some (other_frame body)) e = moved-IsSound looking (λ kept h. h) tt e

  handed-IsSound :
      (pack : MsgPack)
      → w.kept ≡ pack ∷ []
      → IsSound (record c { reader = looking; read_chan = c.read_chan ++ (pack ∷ []) })
  handed-IsSound pack e =
      let d = record c { reader = looking; read_chan = c.read_chan ++ (pack ∷ []) } in
      record {
        dropped = w.dropped;
        over = tt;
        channel = IsOpen-same c.writer c d refl refl w.channel;
        outgoing = w.outgoing;
        room = w.room;
        kept = [];
        incoming = append-nil d.read_chan ∙ ap (◌++◌ c.read_chan) (sym e) ∙ w.incoming;
        held = refl;
      }

  pub read_message-Keeps :
      (r : Reader) (m : ReadMove) → IsKept r w.kept → Keeps (read_message r m c)
  unfolding read_message
  read_message-Keeps starting (deadline fine) h =
      if_both IsSound fine (record c { reader = looking }) (end_reader c)
        (moved-IsSound looking (λ kept e. e) tt h) end_reader-IsSound
  read_message-Keeps looking look h =
      if_both IsSound c.close_chan_closed (end_reader c) (record c { reader = receiving })
        end_reader-IsSound (moved-IsSound receiving (λ kept e. e) tt h)
  read_message-Keeps receiving (receive frame) h = on_read-Keeps frame h
  read_message-Keeps (handing pack) hand_over h = handed-IsSound pack h
  read_message-Keeps (handing pack) give_up h =
      if_both Keeps c.close_chan_closed (ok (end_reader c)) (err blocked) end_reader-IsSound tt
  read_message-Keeps r m h = tt
