-- ===== src/Limits/Window.antt =====
-- `windowLimiter` of internal/httpapi/agent_limits.go.
pub mod Quota
pub mod Runs
pub mod Exact
use witshield.Base.{
  ℕ, zero, suc, ◌+◌, ◌≤◌, String, Bool, true, false, ◌||◌, ◌&&◌, not, Option, none, some, List, [],
  ◌∷◌, ◌++◌, ltb, leb, ◌==◌, str_eq, if◌then◌else◌, length,
}
use witshield.Base.Dict.{lookup, insert, delete}
use witshield.Limits.Buckets.{sweep_due, maybe_sweep, alive, bucket}

pub record WindowLimiter : Type 0 where
  pub attempts : List (String × List ℕ)
  pub window : ℕ
  pub last_sweep : Option ℕ
  pub max_keys : ℕ

unfoldable pub new_window_limiter : ℕ → ℕ → WindowLimiter
new_window_limiter window max_keys = record {
  attempts = [];
  window = window;
  last_sweep = none;
  max_keys = max_keys;
}

abbrev pub time_of : ℕ → ℕ
time_of at = at

abbrev pub is_known : String → List (String × List ℕ) → Bool
is_known key m = elim (lookup key m) [ none ↦ false | some _ ↦ true ]

-- The count in the window of one key, once there is room for the key.
unfoldable pub admit_key : String → ℕ → ℕ → WindowLimiter → WindowLimiter × Bool
admit_key key now limit l =
    let kept = alive time_of l.window now (bucket l.attempts key) in
    if leb limit (length kept)
    then (record l { attempts = insert key kept l.attempts }, false)
    else (record l { attempts = insert key (kept ++ (now ∷ [])) l.attempts }, true)

unfoldable pub sweep_all : ℕ → WindowLimiter → WindowLimiter
sweep_all now l = record l {
  attempts = maybe_sweep time_of l.window l.last_sweep now l.attempts;
  last_sweep = if sweep_due l.last_sweep now then some now else l.last_sweep;
}

-- The room for a new key: `victim` is none for `allow`; for `allowEvicting` it names the key that
-- the iteration over the map meets first.
make_room : Option (List (String × List ℕ) → String) → WindowLimiter → Option WindowLimiter
make_room none l = none
make_room (some victim) l = some (record l { attempts = delete (victim l.attempts) l.attempts })

unfoldable pub has_room : String → WindowLimiter → Bool
has_room key l = is_known key l.attempts || ltb (length l.attempts) l.max_keys

-- `allowInternal`.
unfoldable pub allow_internal :
    Option (List (String × List ℕ) → String) → String → ℕ → ℕ → WindowLimiter → WindowLimiter × Bool
unfolding make_room
allow_internal victim key now limit l =
    if str_eq key "" || limit == 0
    then (l, false)
    else let swept = sweep_all now l in
      if has_room key swept then admit_key key now limit swept else elim (make_room victim swept) [
        | none ↦ (swept, false)
        | some roomy ↦ admit_key key now limit roomy
      ]

unfoldable pub allow : String → ℕ → ℕ → WindowLimiter → WindowLimiter × Bool
unfolding allow_internal
allow = allow_internal none

unfoldable pub allow_evicting :
    (List (String × List ℕ) → String) → String → ℕ → ℕ → WindowLimiter → WindowLimiter × Bool
unfolding allow_internal
allow_evicting victim = allow_internal (some victim)
