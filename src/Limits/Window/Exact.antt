-- ===== src/Limits/Window/Exact.antt =====
-- The decision of `windowLimiter.allow` after any calls: it is exact
-- (internal/httpapi/agent_limits.go).
use witshield.Base.Dict.{lookup}
use witshield.Base.{
  ℕ, ◌+◌, ◌≤◌, ◌<◌, String, ◌≡◌, ◌≢◌, refl, ap, ◌∙◌, true, false, ◌&&◌, List, [], ◌∷◌, ltb, str_eq,
  if◌then◌else◌, length, eq_iff, arith,
}
use mathlib.Core.Path.{◌≡◌}
use witshield.Limits.Buckets.{alive}
use witshield.Limits.Window.{
  ◌&&◌, str_eq, ◌≤◌, if◌then◌else◌, length, ◌∷◌, String, ℕ, List, lookup, WindowLimiter, time_of,
  allow, new_window_limiter, has_room, sweep_all,
}
use witshield.Limits.Window.Quota.{times, times, History, Tracks, allow-Tracks, allow-count}
use witshield.Limits.Window.Runs.{Call, run, Ordered, last_time, window-run}

run-Tracks :
    (calls : List Call) {s : ℕ} {l : WindowLimiter} {h : History}
    → Ordered s calls
    → Tracks l h s
    → Tracks (run l h calls).0 (run l h calls).1 (last_time s calls)
unfolding run
run-Tracks [] o t = t
run-Tracks (c ∷ calls) o t = run-Tracks calls o.1 (allow-Tracks c.key c.now c.limit o.0 t)

new-Tracks : (window max_keys : ℕ) → Tracks (new_window_limiter window max_keys) [] 0
unfolding new_window_limiter lookup times alive
new-Tracks window max_keys = record { distinct = tt; same = λ k t le. refl }

-- How many entries of the key in the history are younger than the window at `now`.
unfoldable pub recent : ℕ → ℕ → String → History → ℕ
recent window now key [] = 0
recent window now key ((k, at) ∷ h) =
    let rest = recent window now key h in
    if str_eq k key && ltb now (at + window) then rest + 1 else rest

recent-alive :
    (window now : ℕ) (key : String) (h : History)
    → length (alive time_of window now (times key h)) ≡ recent window now key h
unfolding alive times recent
recent-alive window now key [] = refl
recent-alive window now key ((k, at) ∷ h) = ground (arith, recent-alive window now key h)

-- From a new limiter, after any calls of `allow` in the order of their times, a call at a time that is
-- not before the last, with a key and a positive limit, and for which the swept map has room, is
-- admitted exactly when fewer than `limit` of the calls admitted for this key are in the window.
pub allow_exact :
    (window max_keys : ℕ) (calls : List Call) (key : String) (now limit : ℕ)
    → Ordered 0 calls
    → last_time 0 calls ≤ now
    → key ≢ ""
    → 0 < limit
    → has_room key (sweep_all now (run (new_window_limiter window max_keys) [] calls).0) ≡ true
    → (allow key now limit (run (new_window_limiter window max_keys) [] calls).0).1
      ≡ ltb (recent window now key (run (new_window_limiter window max_keys) [] calls).1) limit
unfolding new_window_limiter
allow_exact window max_keys calls key now limit o le named positive room =
    let l = new_window_limiter window max_keys in
    let (m, h) = run l [] calls in
    let t : Tracks m h (last_time 0 calls) =
      run-Tracks calls {s = 0} {l = l} {h = []} o (new-Tracks window max_keys) in
    let unnamed : str_eq key "" ≡ false = ground (arith, eq_iff key "") in
    allow-count key now limit le t unnamed positive room
    ∙ ap (λ w. ltb (length (alive time_of w now (times key h))) limit) (window-run l [] calls)
    ∙ ap (λ n. ltb n limit) (recent-alive window now key h)
