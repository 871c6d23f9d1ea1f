-- ===== src/Limits/Weighted/Exact.antt =====
-- The decision of `allowDeviceAndGlobal` after any calls: it is exact
-- (internal/httpapi/agent_limits.go).
use mathlib.Core.Path.{ap₂}
use witshield.Base.Dict.{lookup}
use witshield.Base.{
  ℕ, ◌+◌, ◌≤◌, ◌<◌, String, ◌≡◌, ◌≢◌, refl, ap, ◌∙◌, Bool, true, false, ◌&&◌, List, [], ◌∷◌, ltb,
  leb, str_eq, if◌then◌else◌, eq_iff, arith,
}
use witshield.Limits.Buckets.{alive}
use witshield.Limits.Weighted.{
  ◌+◌, ltb, ◌&&◌, if◌then◌else◌, ◌∷◌, Bool, String, List, lookup, ℕ, WeightedWindowLimiter, at_of,
  total_cost, has_room, sweep_all, is_refused, allow_device_and_global, new_weighted_window_limiter,
}
use witshield.Limits.Weighted.Tracks.{History, of_device, of_all, Tracks}
use witshield.Limits.Weighted.Budget.{allow-Tracks, allow-fits}
use witshield.Limits.Weighted.Runs.{Call, run, Ordered, last_time, window-run}

run-Tracks :
    (calls : List Call) {s : ℕ} {l : WeightedWindowLimiter} {h : History}
    → Ordered s calls
    → Tracks l h s
    → Tracks (run l h calls).0 (run l h calls).1 (last_time s calls)
unfolding run
run-Tracks [] o t = t
run-Tracks (c ∷ calls) o t =
    run-Tracks calls o.1 (allow-Tracks c.device c.now c.cost c.device_limit c.global_limit o.0 t)

new-Tracks : (window max_keys : ℕ) → Tracks (new_weighted_window_limiter window max_keys) [] 0
unfolding new_weighted_window_limiter lookup of_device of_all alive
new-Tracks window max_keys = record {
  distinct = tt;
  device_same = λ d t le. refl;
  global_same = λ t le. refl;
}

-- What the chosen devices have spent in the history within the window at `now`.
unfoldable pub spent : (String → Bool) → ℕ → ℕ → History → ℕ
spent chosen window now [] = 0
spent chosen window now ((d, a) ∷ h) =
    let rest = spent chosen window now h in
    if chosen d && ltb now (a.at + window) then a.cost + rest else rest

spent-device :
    (window now : ℕ) (device : String) (h : History)
    → total_cost (alive at_of window now (of_device device h))
      ≡ spent (λ d. str_eq d device) window now h
unfolding alive of_device spent total_cost
spent-device window now device [] = refl
spent-device window now device ((d, a) ∷ h) = ground (arith, spent-device window now device h)

spent-all :
    (window now : ℕ) (h : History)
    → total_cost (alive at_of window now (of_all h)) ≡ spent (λ d. true) window now h
unfolding alive of_all spent total_cost
spent-all window now [] = refl
spent-all window now ((d, a) ∷ h) = ground (arith, spent-all window now h)

proper :
    (device : String) (cost device_limit global_limit : ℕ)
    → device ≢ ""
    → 0 < cost
    → cost ≤ device_limit
    → cost ≤ global_limit
    → is_refused device cost device_limit global_limit ≡ false
unfolding is_refused
proper device cost device_limit global_limit named positive small small' =
    ground (arith, eq_iff device "")

-- From a new limiter, after any calls of `allowDeviceAndGlobal` in the order of their times, a call at
-- a time that is not before the last, of a named device, with a positive cost of at most either limit,
-- and for which the swept map has room, is admitted exactly when the admitted costs of the device in
-- the window, with its own, stay within the device's limit, and those of all devices within the
-- Controller's.
pub budget_exact :
    (window max_keys : ℕ) (calls : List Call) (c : Call)
    → Ordered 0 calls
    → last_time 0 calls ≤ c.now
    → c.device ≢ ""
    → 0 < c.cost
    → c.cost ≤ c.device_limit
    → c.cost ≤ c.global_limit
    → has_room c.device
        (sweep_all c.now (run (new_weighted_window_limiter window max_keys) [] calls).0)
      ≡ true
    → (allow_device_and_global c.device c.now c.cost c.device_limit c.global_limit
        (run (new_weighted_window_limiter window max_keys) [] calls).0).1
      ≡ (let h = (run (new_weighted_window_limiter window max_keys) [] calls).1 in
          leb (spent (λ d. str_eq d c.device) window c.now h + c.cost) c.device_limit
          && leb (spent (λ d. true) window c.now h + c.cost) c.global_limit)
unfolding new_weighted_window_limiter
budget_exact window max_keys calls c o le named positive small small' room =
    let l = new_weighted_window_limiter window max_keys in
    let (m, h) = run l [] calls in
    let fresh = new-Tracks window max_keys in
    let t : Tracks m h (last_time 0 calls) = run-Tracks calls {s = 0} {l = l} {h = []} o fresh in
    allow-fits c.device c.now c.cost c.device_limit c.global_limit le t
      (proper c.device c.cost c.device_limit c.global_limit named positive small small') room
    ∙ ap
        (λ w.
          leb (total_cost (alive at_of w c.now (of_device c.device h)) + c.cost) c.device_limit
          && leb (total_cost (alive at_of w c.now (of_all h)) + c.cost) c.global_limit)
        (window-run calls {s = 0} {l = l} {h = []} o fresh)
    ∙ ap₂ (λ x y. leb (x + c.cost) c.device_limit && leb (y + c.cost) c.global_limit)
        (spent-device window c.now c.device h) (spent-all window c.now h)
