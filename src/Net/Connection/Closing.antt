-- ===== src/Net/Connection/Closing.antt =====
-- Runs of moves, and how many of them a reader has left on a closed connection.
use mathlib.Core.Path.{subst}
use recreation_test.Base.{
  ℕ, suc, ◌+◌, ◌<◌, ◌≤◌, ◌≡◌, refl, sym, ◌∙◌, true, false, ltb, if◌then◌else◌, List, [], ◌∷◌, ◌++◌,
  length, Option, none, some, Outcome, ok, err, panic, ◌>>=◌, if_both, if_each, arith,
}
use recreation_test.Net.Session.{Wait, blocked}
use recreation_test.Net.Connection.{
  Frame, binary_frame, text_frame, other_frame, Reader, starting, looking, receiving, read_ended,
  handing, Writer, selecting, write_ended, Running, write_chan_capacity, shut, forget, end_reader,
  end_writer, send_message, hold, on_read, ReadMove, deadline, look, receive, hand_over, give_up,
  WriteMove, take_message, ping, notice, read_message, write_next, write_message, Move, reads,
  writes, sends, shuts, forgets, act,
}

-- A run of moves, and how many of them are the reader's.
unfoldable pub act_all : List Move → Running → Outcome Wait Running
act_all [] c = ok c
act_all (m ∷ ms) c = do d ← act m c; act_all ms d

unfoldable pub reads_of : List Move → ℕ
reads_of [] = 0
reads_of (reads m ∷ ms) = suc (reads_of ms)
reads_of (writes m ∷ ms) = reads_of ms
reads_of (sends buf ∷ ms) = reads_of ms
reads_of (shuts ∷ ms) = reads_of ms
reads_of (forgets ∷ ms) = reads_of ms

-- How many moves a reader has left on a closed connection, at most.
abbrev pub rank : Reader → ℕ
rank starting = 2
rank looking = 1
rank receiving = 3
rank (handing pack) = 2
rank read_ended = 0

-- A move that succeeds leaves the connection closed, and the reader with `k` moves less than `n`.
abbrev pub IsClosing : ℕ → ℕ → Running → Type 0
IsClosing k n c = (c.close_chan_closed ≡ true) × (k + rank c.reader ≤ n)

abbrev pub Leaves : ℕ → ℕ → Outcome Wait Running → Type 0
Leaves k n (ok c) = IsClosing k n c
Leaves k n (err e) = Unit {0}
Leaves k n panic = Unit {0}

contradiction : true ≡ false → ⊥
contradiction e = cc

module _ (c : Running) (closed : c.close_chan_closed ≡ true) where
  forget-IsClosing : (k n : ℕ) → k + rank c.reader ≤ n → IsClosing k n (forget c)
  unfolding forget shut
  forget-IsClosing k n h = if_both (IsClosing k n) c.known _ c (refl, h) (closed, h)

  end_reader-IsClosing : (n : ℕ) → 0 < n → IsClosing 1 n (end_reader c)
  unfolding end_reader forget shut
  end_reader-IsClosing n h =
      if_both (IsClosing 1 n) c.known _ (record c { reader = read_ended }) (refl, omega arith)
        (closed, omega arith)

  on_read-IsClosing : (frame : Option Frame) → IsClosing 1 3 (on_read frame c)
  unfolding on_read hold
  on_read-IsClosing none = end_reader-IsClosing 3 (omega arith)
  on_read-IsClosing (some (binary_frame body)) = (closed, omega arith)
  on_read-IsClosing (some (text_frame body)) = (closed, omega arith)
  on_read-IsClosing (some (other_frame body)) = (closed, omega arith)

  read_message-Leaves : (r : Reader) (m : ReadMove) → Leaves 1 (rank r) (read_message r m c)
  unfolding read_message
  read_message-Leaves starting (deadline fine) =
      if_both (IsClosing 1 2) fine (record c { reader = looking }) (end_reader c)
        (closed, omega arith) (end_reader-IsClosing 2 (omega arith))
  read_message-Leaves looking look =
      if_each (IsClosing 1 1) c.close_chan_closed (end_reader c) (record c { reader = receiving })
        (λ e. end_reader-IsClosing 1 (omega arith)) (λ e. absurd (contradiction (sym closed ∙ e)))
  read_message-Leaves receiving (receive frame) = on_read-IsClosing frame
  read_message-Leaves (handing pack) hand_over = (closed, omega arith)
  read_message-Leaves (handing pack) give_up =
      if_both (Leaves 1 2) c.close_chan_closed (ok (end_reader c)) (err blocked)
        (end_reader-IsClosing 2 (omega arith)) tt
  read_message-Leaves r m = tt

  write_next-Leaves : (chan : List (List ℕ)) → Leaves 0 (rank c.reader) (write_next chan c)
  unfolding write_next end_writer shut
  write_next-Leaves [] =
      if_both (Leaves 0 (rank c.reader)) c.write_chan_closed (ok (end_writer (shut c)))
        (err blocked) (refl, omega arith) tt
  write_next-Leaves (buf ∷ rest) = (closed, omega arith)

  write_message-Leaves :
      (r : Writer) (m : WriteMove) → Leaves 0 (rank c.reader) (write_message r m c)
  unfolding write_message end_writer shut
  write_message-Leaves selecting take_message = write_next-Leaves c.write_chan
  write_message-Leaves selecting (ping fine) =
      if_both (IsClosing 0 (rank c.reader)) fine c (shut c) (closed, omega arith)
        (refl, omega arith)
  write_message-Leaves selecting notice =
      if_both (Leaves 0 (rank c.reader)) c.close_chan_closed (ok (end_writer c)) (err blocked)
        (closed, omega arith) tt
  write_message-Leaves write_ended m = tt

  send_message-Leaves : (buf : List ℕ) → Leaves 0 (rank c.reader) (send_message buf c)
  unfolding send_message
  send_message-Leaves buf =
      let room = ltb (length c.write_chan) write_chan_capacity in
      let d = record c {
        write_chan = c.write_chan ++ (buf ∷ []);
        accepted = c.accepted ++ (buf ∷ []);
      } in
      let n = rank c.reader in
      if_both (Leaves 0 n) c.write_chan_closed panic (if room then ok d else err blocked) tt
        (if_both (Leaves 0 n) room (ok d) (err blocked) (closed, omega arith) tt)

  -- A move of the reader brings its end nearer, and no other move puts it off.
  act-Leaves : (m : Move) → Leaves (reads_of (m ∷ [])) (rank c.reader) (act m c)
  unfolding act reads_of shut
  act-Leaves (reads m) = read_message-Leaves c.reader m
  act-Leaves (writes m) = write_message-Leaves c.writer m
  act-Leaves (sends buf) = send_message-Leaves buf
  act-Leaves shuts = (refl, omega arith)
  act-Leaves forgets = forget-IsClosing 0 (rank c.reader) (omega arith)

reads_of-cons : (m : Move) (ms : List Move) → reads_of (m ∷ ms) ≡ reads_of (m ∷ []) + reads_of ms
unfolding reads_of
reads_of-cons (reads m) ms = omega arith
reads_of-cons (writes m) ms = omega arith
reads_of-cons (sends buf) ms = omega arith
reads_of-cons shuts ms = omega arith
reads_of-cons forgets ms = omega arith

-- The first move of a run, and the others.
pub first_move :
    (r : Outcome Wait Running) (ms : List Move) (d : Running)
    → (r >>= act_all ms) ≡ ok d
    → (x : Running) × (r ≡ ok x) × (act_all ms x ≡ ok d)
first_move (ok x) ms d e = (x, refl, e)
first_move (err x) ms d e = absurd (cc)
first_move panic ms d e = absurd (cc)

pub act_all-Leaves :
    (ms : List Move) (c d : Running)
    → c.close_chan_closed ≡ true
    → act_all ms c ≡ ok d
    → Leaves (reads_of ms) (rank c.reader) (ok d)
unfolding act_all reads_of
act_all-Leaves [] c d closed e = subst (Leaves 0 (rank c.reader)) e (closed, omega arith)
act_all-Leaves (m ∷ ms) c d closed e =
    let (x, ex, ed) = first_move (act m c) ms d e in
    let (closed', le) =
      subst (Leaves (reads_of (m ∷ [])) (rank c.reader)) ex (act-Leaves c closed m) in
    let (shut', less) = act_all-Leaves ms x d closed' ed in
    (shut', omega (arith, le, less, reads_of-cons m ms))

pub rank_bound : (r : Reader) → rank r ≤ 3
rank_bound starting = omega arith
rank_bound looking = omega arith
rank_bound receiving = omega arith
rank_bound (handing pack) = omega arith
rank_bound read_ended = omega arith
