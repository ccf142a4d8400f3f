-- ===== src/Discovery/Register.antt =====
-- common/discovery/register.go: the registration of a service in etcd and its watcher. What the calls of
-- etcd answer is an argument; a call that fails has had no effect. `bound` is the lease that the key of the
-- service stands under in etcd, and `put_failed` remembers that the last `register` failed at its `Put`.
-- The channel of the heartbeat delivers nil once it has ended. The watcher goes on after a close, where the
-- closed client fails all calls; a failed `Close` of the client, which ends the watcher, is left out.
pub mod Watch
use recreation_test.Base.{
  ℕ, ◌≡◌, Bool, true, false, if◌then◌else◌, List, [], ◌∷◌, Option, none, some,
}

-- `keepAliveCh`: nil, with a heartbeat, or at its end.
pub data Channel : Type 0 where
  nil_chan beating ended : Channel

pub record Register : Type 0 where
  pub lease_id : ℕ
  pub keep_alive_ch : Channel
  pub bound : Option ℕ
  pub put_failed : Bool
  pub client_open : Bool

-- The answers of `Grant`, `KeepAlive` and `Put`.
pub record Calls : Type 0 where
  pub granted : Option ℕ
  pub kept_alive : Bool
  pub put : Bool

abbrev pub no_calls : Calls
no_calls = record { granted = none; kept_alive = false; put = false }

-- `createLease`: whether it succeeded.
unfoldable pub create_lease : Calls → Register → Bool × Register
create_lease calls r = elim calls.granted [
  | none ↦ (false, r)
  | some id ↦ (true, record r { lease_id = id })
]

unfoldable pub keep_alive : Calls → Register → Bool × Register
keep_alive calls r =
    if calls.kept_alive
    then (true, record r { keep_alive_ch = beating })
    else (false, record r { keep_alive_ch = nil_chan })

unfoldable pub bind_lease : Calls → Register → Bool × Register
bind_lease calls r =
    if calls.put
    then (true, record r { bound = some r.lease_id; put_failed = false })
    else (false, record r { put_failed = true })

-- The next call, if the one before has succeeded.
unfoldable pub and_then : Bool × Register → (Register → Bool × Register) → Bool × Register
and_then (true, r) next = next r
and_then (false, r) next = (false, r)

unfoldable pub attempt : Calls → Register → Bool × Register
attempt calls r = and_then (and_then (create_lease calls r) (keep_alive calls)) (bind_lease calls)

unfoldable pub register : Calls → Register → Bool × Register
register calls r = attempt (if r.client_open then calls else no_calls) r

-- The cases of the watcher's `select`: the ticker, what the heartbeat delivers, and a close.
unfoldable pub tick_case : Channel → Calls → Register → Register
tick_case nil_chan calls r = (register calls r).1
tick_case beating calls r = r
tick_case ended calls r = r

unfoldable pub beat_case : Channel → Calls → Register → Register
beat_case nil_chan calls r = r
beat_case beating calls r = r
beat_case ended calls r = (register calls r).1

unfoldable pub end_channel : Channel → Channel
end_channel nil_chan = nil_chan
end_channel beating = ended
end_channel ended = ended

-- `Delete`, `Revoke` and `Close`, of which each goes on if the one before failed.
unfoldable pub on_close : Bool → Bool → Register → Register
on_close deleted revoked r = record r {
  bound = if deleted then none else if revoked then none else r.bound;
  keep_alive_ch = end_channel r.keep_alive_ch;
  client_open = false;
}

-- What etcd does: the heartbeat ends, and the lease runs out or not.
unfoldable pub on_lapse : Bool → Register → Register
on_lapse expired r = record r {
  bound = if expired then none else r.bound;
  keep_alive_ch = end_channel r.keep_alive_ch;
}

pub data Event : Type 0 where
  ticked beaten : Calls → Event
  closing : Bool → Bool → Event
  lapsed : Bool → Event

unfoldable pub watch : Event → Register → Register
watch (ticked calls) r = tick_case r.keep_alive_ch calls r
watch (beaten calls) r = beat_case r.keep_alive_ch calls r
watch (closing deleted revoked) r = on_close deleted revoked r
watch (lapsed expired) r = on_lapse expired r

unfoldable pub watcher : List Event → Register → Register
watcher [] r = r
watcher (e ∷ events) r = watcher events (watch e r)

-- `Register`, up to the start of the watcher: the state behind a first registration that succeeded.
abbrev pub registered : ℕ → Register
registered id = record {
  lease_id = id;
  keep_alive_ch = beating;
  bound = some id;
  put_failed = false;
  client_open = true;
}
