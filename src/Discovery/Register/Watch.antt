-- ===== src/Discovery/Register/Watch.antt =====
-- What the watcher keeps up, and what it does not.
use recreation_test.Base.{
  ℕ, ◌≡◌, ◌≢◌, refl, ap, ◌∙◌, Bool, true, false, List, [], ◌∷◌, Option, none, some, if_both, All,
}
use recreation_test.Discovery.Register.{
  Channel, nil_chan, beating, ended, Register, Calls, no_calls, create_lease, keep_alive,
  bind_lease, and_then, attempt, register, tick_case, beat_case, end_channel, on_close, on_lapse,
  Event, ticked, beaten, closing, lapsed, watch, watcher, registered,
}

-- While the heartbeat goes on, the key stands under the lease that is kept alive, unless its `Put` failed.
pub record IsKept (r : Register) : Type 0 where
  pub kept : r.keep_alive_ch ≡ beating → r.put_failed ≡ false → r.bound ≡ some r.lease_id

attempt-IsKept :
    (granted : Option ℕ) (kept_alive put : Bool) (r : Register)
    → IsKept r
    → IsKept (attempt (record { granted = granted; kept_alive = kept_alive; put = put }) r).1
unfolding attempt and_then create_lease keep_alive bind_lease
attempt-IsKept none kept_alive put r w = w
attempt-IsKept (some id) false put r w = record { kept = λ e f. absurd (cc) }
attempt-IsKept (some id) true false r w = record { kept = λ e f. absurd (cc) }
attempt-IsKept (some id) true true r w = record { kept = λ e f. refl }

register-IsKept : (calls : Calls) (r : Register) → IsKept r → IsKept (register calls r).1
unfolding register
register-IsKept calls r w =
    if_both (λ (c : Calls). IsKept (attempt c r).1) r.client_open calls no_calls
      (attempt-IsKept calls.granted calls.kept_alive calls.put r w)
      (attempt-IsKept none false false r w)

not_beating : (c : Channel) → end_channel c ≢ beating
unfolding end_channel
not_beating nil_chan e = cc
not_beating beating e = cc
not_beating ended e = cc

tick_case-IsKept :
    (c : Channel) (calls : Calls) (r : Register) → IsKept r → IsKept (tick_case c calls r)
unfolding tick_case
tick_case-IsKept nil_chan calls r w = register-IsKept calls r w
tick_case-IsKept beating calls r w = w
tick_case-IsKept ended calls r w = w

beat_case-IsKept :
    (c : Channel) (calls : Calls) (r : Register) → IsKept r → IsKept (beat_case c calls r)
unfolding beat_case
beat_case-IsKept nil_chan calls r w = w
beat_case-IsKept beating calls r w = w
beat_case-IsKept ended calls r w = register-IsKept calls r w

watch-IsKept : (e : Event) (r : Register) → IsKept r → IsKept (watch e r)
unfolding watch on_close on_lapse
watch-IsKept (ticked calls) r w = tick_case-IsKept r.keep_alive_ch calls r w
watch-IsKept (beaten calls) r w = beat_case-IsKept r.keep_alive_ch calls r w
watch-IsKept (closing deleted revoked) r w = record {
  kept = λ e f. absurd (not_beating r.keep_alive_ch e);
}
watch-IsKept (lapsed expired) r w = record { kept = λ e f. absurd (not_beating r.keep_alive_ch e) }

watcher-IsKept_lem : (events : List Event) (r : Register) → IsKept r → IsKept (watcher events r)
unfolding watcher
watcher-IsKept_lem [] r w = w
watcher-IsKept_lem (e ∷ events) r w = watcher-IsKept_lem events (watch e r) (watch-IsKept e r w)

-- Whatever the watcher meets after the service was registered: while a heartbeat goes on, the service stands
-- in etcd under the very lease that the heartbeat keeps alive, unless the last `Put` has failed.
pub watcher-IsKept : (id : ℕ) (events : List Event) → IsKept (watcher events (registered id))
watcher-IsKept id events = watcher-IsKept_lem events (registered id) (record { kept = λ e f. refl })

-- Calls that all succeed.
abbrev pub good_calls : ℕ → Calls
good_calls id = record { granted = some id; kept_alive = true; put = true }

good_register :
    (id : ℕ) (r : Register)
    → r.client_open ≡ true
    → ((register (good_calls id) r).1.bound ≡ some id)
      × ((register (good_calls id) r).1.keep_alive_ch ≡ beating)
unfolding register attempt and_then create_lease keep_alive bind_lease
good_register id r e = rw e (refl, refl)

-- A beat and a tick lead to one registration, in either order of the channel's end.
restores_lem :
    (id : ℕ) (c : Channel) (r : Register)
    → r.keep_alive_ch ≡ c
    → c ≢ beating
    → r.client_open ≡ true
    → watcher (beaten (good_calls id) ∷ ticked (good_calls id) ∷ []) r
      ≡ (register (good_calls id) r).1
unfolding watcher watch beat_case tick_case
restores_lem id nil_chan r e h up =
    let calls = good_calls id in
    let first : beat_case r.keep_alive_ch calls r ≡ r =
      ap (λ (c : Channel). beat_case c calls r) e in
    ap (λ (s : Register). tick_case s.keep_alive_ch calls s) first
    ∙ ap (λ (c : Channel). tick_case c calls r) e
restores_lem id beating r e h up = absurd (h refl)
restores_lem id ended r e h up =
    let calls = good_calls id in
    let after = (register calls r).1 in
    let first : beat_case r.keep_alive_ch calls r ≡ after =
      ap (λ (c : Channel). beat_case c calls r) e in
    ap (λ (s : Register). tick_case s.keep_alive_ch calls s) first
    ∙ ap (λ (c : Channel). tick_case c calls after) (good_register id r up).1

-- Once the heartbeat is lost, or never came about, the service is registered again by the next round of the
-- watcher in which all calls succeed, however often they failed before: it stands under the new lease, with
-- a heartbeat. The watcher has not been closed.
pub watcher_restores :
    (id : ℕ) (events : List Event) (id' : ℕ)
    → (watcher events (registered id)).keep_alive_ch ≢ beating
    → (watcher events (registered id)).client_open ≡ true
    → let r =
        watcher
          (beaten (good_calls id') ∷ ticked (good_calls id') ∷ [])
          (watcher events (registered id)) in
      (r.bound ≡ some id') × (r.keep_alive_ch ≡ beating)
watcher_restores id events id' lost up =
    let r = watcher events (registered id) in
    let e = restores_lem id' r.keep_alive_ch r refl lost up in
    let (bound, alive) = good_register id' r up in
    (ap Register.bound e ∙ bound, ap Register.keep_alive_ch e ∙ alive)

-- An event that leaves the heartbeat alone.
abbrev pub IsCalm : Event → Type 0
IsCalm (ticked calls) = Unit {0}
IsCalm (beaten calls) = Unit {0}
IsCalm (closing deleted revoked) = ⊥
IsCalm (lapsed expired) = ⊥

calm_lem :
    (events : List Event) (r : Register)
    → All IsCalm events
    → r.keep_alive_ch ≡ beating
    → watcher events r ≡ r
unfolding watcher watch tick_case beat_case
calm_lem [] r calm e = refl
calm_lem (ticked calls ∷ events) r (one, calm) e =
    ap (watcher events) (ap (λ (c : Channel). tick_case c calls r) e) ∙ calm_lem events r calm e
calm_lem (beaten calls ∷ events) r (one, calm) e =
    ap (watcher events) (ap (λ (c : Channel). beat_case c calls r) e) ∙ calm_lem events r calm e
calm_lem (closing deleted revoked ∷ events) r (one, calm) e = absurd one
calm_lem (lapsed expired ∷ events) r (one, calm) e = absurd one

unbound_lem :
    (id : ℕ) (r : Register)
    → r.client_open ≡ true
    → let r' = (register (record { granted = some id; kept_alive = true; put = false }) r).1 in
      (r'.bound ≡ r.bound) × (r'.keep_alive_ch ≡ beating)
unfolding register attempt and_then create_lease keep_alive bind_lease
unbound_lem id r e = rw e (refl, refl)

-- A registration whose `Put` fails is never made up for: although the heartbeat goes on and whatever later
-- calls would answer, the service stays out of etcd through all ticks and beats.
pub register_unbound :
    (id : ℕ) (r : Register) (events : List Event)
    → r.client_open ≡ true
    → r.bound ≡ none
    → All IsCalm events
    → (watcher events
        (register (record { granted = some id; kept_alive = true; put = false }) r).1).bound
      ≡ none
register_unbound id r events up gone calm =
    let (same, alive) = unbound_lem id r up in
    ap Register.bound (calm_lem events _ calm alive) ∙ same ∙ gone
