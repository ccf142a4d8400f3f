-- ===== src/Net/Connection/Ends.antt =====
-- How a connection ends.
use mathlib.Core.Path.{subst}
use recreation_test.Base.{
  ◌≤◌, ◌≡◌, ◌⊎◌, inl, inr, refl, ap, ◌∙◌, Bool, true, false, if◌then◌else◌, List, [], ◌∷◌, none,
  Str, Outcome, ok, err, panic, arith,
}
use recreation_test.Net.Session.{Wait, blocked}
use recreation_test.Net.Connection.{
  Reader, starting, looking, receiving, read_ended, handing, Writer, selecting, write_ended,
  Running, running, end_reader, end_writer, on_read, ReadMove, deadline, look, receive, give_up,
  notice, read_message, write_message, Move, reads, writes, act, Reaches, onward,
}
use recreation_test.Net.Connection.Invariant.{IsSound, IsOver}
use recreation_test.Net.Connection.Delivery.{Reaches-IsSound}
use recreation_test.Net.Connection.Closing.{
  act_all, reads_of, first_move, act_all-Leaves, rank_bound,
}

-- The reader has ended, or can go on by itself or when `ReadMessage` returns.
abbrev pub IsReady : Running → Type 0
IsReady c =
    ((c.reader ≡ read_ended) × (c.known ≡ false))
    ⊎ ((m : ReadMove) × (d : Running) × (act (reads m) c ≡ ok d))

ready :
    (c : Running) (r : Reader) → c.reader ≡ r → c.close_chan_closed ≡ true → IsSound c → IsReady c
unfolding act read_message end_reader on_read
ready c starting e closed w = inr (
  deadline true,
  record c { reader = looking },
  ap (λ (r : Reader). read_message r (deadline true) c) e,
)
ready c looking e closed w = inr (
  look,
  end_reader c,
  ap (λ (r : Reader). read_message r look c) e
      ∙ ap (λ (b : Bool). ok (if b then end_reader c else record c { reader = receiving })) closed,
)
ready c receiving e closed w =
    inr (receive none, end_reader c, ap (λ (r : Reader). read_message r (receive none) c) e)
ready c (handing pack) e closed w = inr (
  give_up,
  end_reader c,
  ap (λ (r : Reader). read_message r give_up c) e
      ∙ ap (λ (b : Bool). if b then ok (end_reader c) else err blocked) closed,
)
ready c read_ended e closed w = inl (e, subst (λ (r : Reader). IsOver r c) e w.over)

pub act_all-Reaches :
    (ms : List Move) (b c d : Running) → Reaches b c → act_all ms c ≡ ok d → Reaches b d
unfolding act_all
act_all-Reaches [] b c d r e = subst (ReachesAll b) e r
  where
    ReachesAll : Running → Outcome Wait Running → Type 0
    ReachesAll b (ok c) = Reaches b c
    ReachesAll b (err e) = Unit {0}
    ReachesAll b panic = Unit {0}
act_all-Reaches (m ∷ ms) b c d r e =
    let (x, ex, ed) = first_move (act m c) ms d e in act_all-Reaches ms b x d (onward m r ex) ed

-- The writer has ended, or ends with the signal.
abbrev pub MayEnd : Running → Type 0
MayEnd c = (c.writer ≡ write_ended) ⊎ (act (writes notice) c ≡ ok (end_writer c))

may_end : (c : Running) (r : Writer) → c.writer ≡ r → c.close_chan_closed ≡ true → MayEnd c
unfolding act write_message
may_end c write_ended e closed = inl e
may_end c selecting e closed = inr (
    ap (λ (r : Writer). write_message r notice c) e
    ∙ ap (λ (b : Bool). if b then ok (end_writer c) else err blocked) closed)

-- Once a connection is closed, its reader makes at most three more moves, whatever else happens. As long as
-- it has not ended one of them can be made, at the latest when `ReadMessage` returns; and when it has
-- ended, the manager no longer knows the connection. The writer has ended, or its next move can be its last.
pub reader_ends :
    (cid : Str) (taken : Bool) (ms : List Move) (c d : Running)
    → Reaches (running cid taken) c
    → c.close_chan_closed ≡ true
    → act_all ms c ≡ ok d
    → (reads_of ms ≤ 3) × IsReady d × MayEnd d
reader_ends cid taken ms c d r closed e =
    let (still, left) = act_all-Leaves ms c d closed e in
    (
      omega (arith, left, rank_bound c.reader),
      ready d d.reader refl still
          (Reaches-IsSound cid taken d (act_all-Reaches ms (running cid taken) c d r e)),
      may_end d d.writer refl still,
    )
