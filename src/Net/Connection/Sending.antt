-- ===== src/Net/Connection/Sending.antt =====
-- What `SendMessage` does, as the writer runs or has ended.
use mathlib.Core.Path.{subst}
use recreation_test.Base.{
  ℕ, ◌<◌, ◌≤◌, ◌≡◌, ◌⊎◌, inl, inr, refl, ap, ◌∙◌, Bool, true, false, ltb, if◌then◌else◌, List, [],
  ◌∷◌, ◌++◌, length, Str, Outcome, ok, err, panic, Bool-cases, ltb→lt, arith,
}
use recreation_test.Net.Session.{Wait, blocked}
use recreation_test.Net.Connection.{
  Writer, selecting, write_ended, Running, write_chan_capacity, running, shut, end_writer,
  send_message, ping, notice, write_message, writes, act, Reaches, start, onward,
}
use recreation_test.Net.Connection.Invariant.{IsSound, IsOpen}
use recreation_test.Net.Connection.Delivery.{Reaches-IsSound}

module _ (c : Running) (buf : List ℕ) where
  abbrev grown : Running
  grown = record c { write_chan = c.write_chan ++ (buf ∷ []); accepted = c.accepted ++ (buf ∷ []) }

  send_closed : c.write_chan_closed ≡ true → send_message buf c ≡ panic
  unfolding send_message
  send_closed e = rw e refl

  -- `SendMessage` while the channel is open.
  send_open :
      c.write_chan_closed ≡ false
      → length c.write_chan ≤ write_chan_capacity
      → ((length c.write_chan ≡ write_chan_capacity) × (send_message buf c ≡ err blocked))
        ⊎ ((length c.write_chan < write_chan_capacity) × (send_message buf c ≡ ok grown))
  unfolding send_message
  send_open is_open room =
      let answer : Bool → Outcome Wait Running = λ b. if b then ok grown else err blocked in
      let here = ltb (length c.write_chan) write_chan_capacity in
      let opened : send_message buf c ≡ answer here =
        ap (λ (b : Bool). if b then panic else answer here) is_open in
      elim (Bool-cases here) [
        | inl less ↦
            inr (ltb→lt (length c.write_chan) write_chan_capacity less, opened ∙ ap answer less)
        | inr full ↦ inl (ground (arith, full, room), opened ∙ ap answer full)
      ]

-- `SendMessage` stops the program exactly if the writer of the connection has ended, and the connection is
-- closed then. Else it takes the message, or it waits, exactly if 1024 messages wait.
pub send_message_cases :
    (cid : Str) (taken : Bool) (c : Running) (buf : List ℕ)
    → Reaches (running cid taken) c
    → ((c.writer ≡ write_ended) × (c.close_chan_closed ≡ true) × (send_message buf c ≡ panic))
      ⊎ ((c.writer ≡ selecting)
          × (length c.write_chan ≡ write_chan_capacity)
          × (send_message buf c ≡ err blocked))
      ⊎ ((c.writer ≡ selecting)
          × (length c.write_chan < write_chan_capacity)
          × (send_message buf c
              ≡ ok (record c {
                write_chan = c.write_chan ++ (buf ∷ []);
                accepted = c.accepted ++ (buf ∷ []);
              })))
unfolding send_message
send_message_cases cid taken c buf r = elim (Writer-cases c.writer) [
  | inl ended ↦
      let (shut', closed) = subst (λ (w : Writer). IsOpen w c) ended sound.channel in
      inl (ended, closed, send_closed c buf shut')
  | inr runs ↦
      elim (send_open c buf (subst (λ (w : Writer). IsOpen w c) runs sound.channel) sound.room) [
        | inl (full, waits) ↦ inr (inl (runs, full, waits))
        | inr (fits, takes) ↦ inr (inr (runs, fits, takes))
      ]
]
  where
    sound : IsSound c
    sound = Reaches-IsSound cid taken c r

    Writer-cases : (w : Writer) → (w ≡ write_ended) ⊎ (w ≡ selecting)
    Writer-cases write_ended = inl refl
    Writer-cases selecting = inr refl

-- From wherever a connection is whose writer runs, a failed ping and the writer's end lead to where the
-- manager still knows the connection, if it did before, and each `SendMessage` to it stops the program.
pub send_message_fatal :
    (c : Running) (buf : List ℕ)
    → c.writer ≡ selecting
    → (d : Running) × Reaches c d × (d.known ≡ c.known) × (send_message buf d ≡ panic)
unfolding act write_message shut end_writer send_message
send_message_fatal c buf e = (
  end_writer (shut c),
  onward (writes notice)
      (onward (writes (ping false)) start (ap (λ (r : Writer). write_message r (ping false) c) e))
      (ap (λ (r : Writer). write_message r notice (shut c)) e),
  refl,
  refl,
)
