-- ===== src/Limits/Examples.antt =====
-- Runs of the admission guards at concrete inputs.
use witshield.Base.{
  true, str_eq, ◌+◌, ◌≤◌, String, ◌≡◌, refl, ◌&&◌, List, [], ◌∷◌, map, ltb, leb, length, arith,
}
use witshield.Base.Dict.{lookup, insert, delete}
use witshield.Limits.Buckets.{alive, maybe_sweep, put_or_delete}
use witshield.Limits.Window
use witshield.Limits.Window.{allow, allow_evicting, new_window_limiter, time_of}
use witshield.Limits.Window.Quota.{times}
use witshield.Limits.Window.Exact.{allow_exact, recent}
use witshield.Limits.Window.Runs
use witshield.Limits.Window.Runs.{window_quota}
use witshield.Limits.Weighted
use witshield.Limits.Weighted.{
  allow_device_and_global, new_weighted_window_limiter, at_of, total_cost,
}
use witshield.Limits.Weighted.Tracks.{of_device, of_all}
use witshield.Limits.Weighted.Exact.{budget_exact, spent}
use witshield.Limits.Weighted.Runs as WeightedRuns
use witshield.Limits.Weighted.Runs.{weighted_quota}
use witshield.Limits.SyncGate.{begin, release, enter, acquire, drain, leave, new_sync_gate, Outcome}
use witshield.Limits.SyncGate.Interleaving.{
  System, Reach, here, next, entered, acquired, drained, released, take_out, start, inside, count,
  sync_gate_exclusive, sync_gate_drains,
}

limits : Unit {0}
unfolding lookup insert delete alive maybe_sweep put_or_delete allow allow_evicting Window.admit_key
    Window.sweep_all Window.has_room new_window_limiter allow_device_and_global Weighted.spend
    Weighted.over_budget Weighted.record_attempt Weighted.prune Weighted.sweep_all Weighted.has_room
    Weighted.is_refused Weighted.device_key total_cost new_weighted_window_limiter
limits = tt

abbrev calls : List Runs.Call
calls =
    record { key = "10.0.0.1"; now = 5; limit = 2 }
    ∷ record { key = "10.0.0.1"; now = 6; limit = 2 }
    ∷ record { key = "10.0.0.1"; now = 7; limit = 2 }
    ∷ record { key = "10.0.0.1"; now = 15; limit = 2 }
    ∷ []

-- The third call is refused, and the fourth finds the first two gone from the window.
calls_admitted : times "10.0.0.1" (Runs.run (new_window_limiter 8 10) [] calls).1 ≡ 5 ∷ 6 ∷ 15 ∷ []
unfolding limits Runs.run times
calls_admitted = refl

window_quota_example :
    length (alive time_of 8 15 (times "10.0.0.1" (Runs.run (new_window_limiter 8 10) [] calls).1))
    ≤ 2
window_quota_example =
    window_quota 2 8 10 calls (omega arith) (omega arith) "10.0.0.1" 15 (omega arith)

allow_exact_example :
    (allow "10.0.0.1" 16 2 (Runs.run (new_window_limiter 8 10) [] calls).0).1
    ≡ ltb (recent 8 16 "10.0.0.1" (Runs.run (new_window_limiter 8 10) [] calls).1) 2
unfolding limits Runs.run
allow_exact_example =
    allow_exact 8 10 calls "10.0.0.1" 16 2 (omega arith) (omega arith) (λ e. cc) (omega arith) refl

abbrev work : List WeightedRuns.Call
work =
    record { device = "d1"; now = 5; cost = 3; device_limit = 5; global_limit = 8 }
    ∷ record { device = "d1"; now = 6; cost = 3; device_limit = 5; global_limit = 8 }
    ∷ record { device = "d2"; now = 6; cost = 5; device_limit = 5; global_limit = 8 }
    ∷ record { device = "d3"; now = 7; cost = 1; device_limit = 5; global_limit = 8 }
    ∷ []

-- The second call is over its device's budget, and the fourth over that of the Controller.
work_admitted :
    map at_of (of_all (WeightedRuns.run (new_weighted_window_limiter 8 10) [] work).1) ≡ 5 ∷ 6 ∷ []
unfolding limits WeightedRuns.run of_all
work_admitted = refl

weighted_quota_example :
    let h = (WeightedRuns.run (new_weighted_window_limiter 8 10) [] work).1 in
    (total_cost (alive at_of 8 7 (of_device "d1" h)) ≤ 5)
    × (total_cost (alive at_of 8 7 (of_all h)) ≤ 8)
weighted_quota_example =
    weighted_quota 5 8 8 10 work (omega arith) (omega arith) "d1" 7 (omega arith)

abbrev more_work : WeightedRuns.Call
more_work = record { device = "d1"; now = 8; cost = 2; device_limit = 5; global_limit = 9 }

budget_exact_example :
    (allow_device_and_global "d1" 8 2 5 9
      (WeightedRuns.run (new_weighted_window_limiter 8 10) [] work).0).1
    ≡ (let h = (WeightedRuns.run (new_weighted_window_limiter 8 10) [] work).1 in
        leb (spent (λ d. str_eq d "d1") 8 8 h + 2) 5 && leb (spent (λ d. true) 8 8 h + 2) 9)
unfolding limits WeightedRuns.run
budget_exact_example =
    budget_exact 8 10 work more_work (omega arith) (omega arith) (λ e. cc) (omega arith)
      (omega arith) (omega arith) refl

-- The same device is refused while it holds a place, another one while the channel is full.
gate_run :
    let (g, _) = begin "d1" (new_sync_gate 1) in
    ((begin "d1" g).1 ≡ Outcome.busy_device)
    × ((begin "d2" g).1 ≡ Outcome.busy_global)
    × ((begin "d2" (release "d1" g)).1 ≡ Outcome.admitted)
unfolding begin release new_sync_gate
gate_run = (refl, refl, refl)

abbrev one_inside : System
one_inside = record {
  gate = record { active = "d1" ∷ []; filled = 1; max_global = 2 };
  entering = [];
  holding = "d1" ∷ [];
  releasing = [];
  leaving = [];
}

Reach-one : Reach (start 2) one_inside
unfolding start new_sync_gate enter acquire count take_out
Reach-one =
    next
      (next here
        (entered (start 2) "d1" (record { active = "d1" ∷ []; filled = 0; max_global = 2 }) refl))
      (acquired
        (record {
          gate = record { active = "d1" ∷ []; filled = 0; max_global = 2 };
          entering = "d1" ∷ [];
          holding = [];
          releasing = [];
          leaving = [];
        })
        "d1" (record { active = "d1" ∷ []; filled = 1; max_global = 2 }) (omega arith) refl)

sync_gate_exclusive_example :
    (length one_inside.holding ≤ 2) × ((d : String) → inside d one_inside ≤ 1)
sync_gate_exclusive_example = sync_gate_exclusive 2 Reach-one

abbrev released_one : System
released_one = record one_inside {
  gate = record { active = "d1" ∷ []; filled = 0; max_global = 2 };
  holding = [];
  releasing = "d1" ∷ [];
}

abbrev all_left : System
all_left = record released_one {
  gate = record { active = []; filled = 0; max_global = 2 };
  releasing = [];
}

Reach-left : Reach (start 2) all_left
unfolding drain leave count take_out
Reach-left =
    next {t = released_one} (next Reach-one (drained one_inside "d1" (omega arith)))
      (released released_one "d1" (omega arith))

sync_gate_drains_example : all_left.gate ≡ new_sync_gate 2
unfolding inside count
sync_gate_drains_example = sync_gate_drains 2 Reach-left (λ d. refl)
