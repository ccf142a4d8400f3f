-- ===== src/Discovery/Tests.antt =====
-- common/discovery at concrete inputs.
use recreation_test.Base.{◌≡◌, refl, some, true, List, [], ◌∷◌, bytes, arith}
use recreation_test.Discovery.Server.{Server}
use recreation_test.Discovery.Server.Keys.{IsPlain}
use recreation_test.Discovery.Register.{
  beating, no_calls, Event, ticked, beaten, lapsed, watch, watcher, registered, register, attempt,
  and_then, create_lease, on_lapse, end_channel, beat_case,
}
use recreation_test.Discovery.Register.Watch.{IsKept, watcher-IsKept, good_calls, watcher_restores}

abbrev user_server : Server
user_server = record {
  name = bytes "user";
  addr = bytes "h:1";
  weight = 3;
  version = bytes "v1";
  ttl = 10;
}

user_server-IsPlain : IsPlain user_server
user_server-IsPlain = record {
  name_free = (
    (λ e. absurd (omega arith)),
    ((λ e. absurd (omega arith)), ((λ e. absurd (omega arith)), ((λ e. absurd (omega arith)), tt))),
  );
  addr_free = (
    (λ e. absurd (omega arith)),
    ((λ e. absurd (omega arith)), ((λ e. absurd (omega arith)), tt)),
  );
  version_free = ((λ e. absurd (omega arith)), ((λ e. absurd (omega arith)), tt));
}

watcher-IsKept_example : IsKept (watcher (lapsed true ∷ beaten (good_calls 8) ∷ []) (registered 7))
watcher-IsKept_example = watcher-IsKept 7 (lapsed true ∷ beaten (good_calls 8) ∷ [])

-- The lease has run out, and a registration has failed.
abbrev lost : List Event
lost = lapsed true ∷ beaten no_calls ∷ []

watcher_restores_example :
    let r =
      watcher (beaten (good_calls 9) ∷ ticked (good_calls 9) ∷ []) (watcher lost (registered 7)) in
    (r.bound ≡ some 9) × (r.keep_alive_ch ≡ beating)
unfolding watcher watch on_lapse end_channel beat_case register attempt and_then create_lease
watcher_restores_example = watcher_restores 7 lost 9 (λ e. cc) refl
