-- ===== src/Limits/Weighted.antt =====
-- `weightedWindowLimiter` of internal/httpapi/agent_limits.go.
pub mod Tracks
pub mod Budget
pub mod Runs
pub mod Exact
use Prim.Native.String.{◌++◌ as cat}
use witshield.Base.{
  ℕ, zero, suc, ◌+◌, String, Bool, true, false, ◌||◌, ◌&&◌, not, Option, none, some, List, [], ◌∷◌,
  ◌++◌, ltb, leb, ◌==◌, str_eq, if◌then◌else◌, length,
}
use witshield.Base.Dict.{lookup, insert}
use witshield.Limits.Buckets.{sweep_due, maybe_sweep, alive, bucket, put_or_delete}

pub record WeightedAttempt : Type 0 where
  pub at : ℕ
  pub cost : ℕ

abbrev pub at_of : WeightedAttempt → ℕ
at_of a = a.at

pub record WeightedWindowLimiter : Type 0 where
  pub attempts : List (String × List WeightedAttempt)
  pub window : ℕ
  pub max_keys : ℕ
  pub last_sweep : Option ℕ

unfoldable pub new_weighted_window_limiter : ℕ → ℕ → WeightedWindowLimiter
new_weighted_window_limiter window max_keys = record {
  attempts = [];
  window = window;
  max_keys = max_keys;
  last_sweep = none;
}

-- `total += attempt.cost`
unfoldable pub total_cost : List WeightedAttempt → ℕ
total_cost [] = 0
total_cost (a ∷ rest) = a.cost + total_cost rest

unfoldable pub device_key : String → String
device_key device = cat "device:" device

abbrev pub global_key : String
global_key = "global"

-- The attempts of a key that are alive, as `prune` returns them.
abbrev pub pruned : String → ℕ → WeightedWindowLimiter → List WeightedAttempt
pruned key now l = alive at_of l.window now (bucket l.attempts key)

-- What `prune` writes.
unfoldable pub prune : String → ℕ → WeightedWindowLimiter → WeightedWindowLimiter
prune key now l = record l {
  attempts = put_or_delete at_of l.window key (pruned key now l) l.attempts;
}

unfoldable pub sweep_all : ℕ → WeightedWindowLimiter → WeightedWindowLimiter
sweep_all now l = record l {
  attempts = maybe_sweep at_of l.window l.last_sweep now l.attempts;
  last_sweep = if sweep_due l.last_sweep now then some now else l.last_sweep;
}

unfoldable pub has_room : String → WeightedWindowLimiter → Bool
has_room device l =
    (elim (lookup (device_key device) l.attempts) [ none ↦ false | some _ ↦ true ])
    || ltb (length l.attempts) l.max_keys

-- The writes of an admitted attempt, behind the pruned attempts of both keys.
unfoldable pub record_attempt :
    String
    → WeightedAttempt
    → List WeightedAttempt
    → List WeightedAttempt
    → WeightedWindowLimiter
    → WeightedWindowLimiter
record_attempt device a device_attempts global_attempts l = record l {
  attempts =
      insert global_key (global_attempts ++ (a ∷ []))
        (insert (device_key device) (device_attempts ++ (a ∷ [])) l.attempts);
}

-- `deviceUsed+cost > deviceLimit || globalUsed+cost > globalLimit`
unfoldable pub over_budget : ℕ → ℕ → ℕ → List WeightedAttempt → List WeightedAttempt → Bool
over_budget cost device_limit global_limit device_attempts global_attempts =
    ltb device_limit (total_cost device_attempts + cost)
    || ltb global_limit (total_cost global_attempts + cost)

-- Both budgets, once there is room for the device.
unfoldable pub spend : String → ℕ → ℕ → ℕ → ℕ → WeightedWindowLimiter → WeightedWindowLimiter × Bool
spend device now cost device_limit global_limit l =
    let device_attempts = pruned (device_key device) now l in
    let l₁ = prune (device_key device) now l in
    let global_attempts = pruned global_key now l₁ in
    let l₂ = prune global_key now l₁ in
    if over_budget cost device_limit global_limit device_attempts global_attempts
    then (l₂, false)
    else (
      record_attempt device (record { at = now; cost = cost }) device_attempts global_attempts l₂,
      true,
    )

-- `deviceID == "" || cost <= 0 || …`
unfoldable pub is_refused : String → ℕ → ℕ → ℕ → Bool
is_refused device cost device_limit global_limit =
    str_eq device ""
    || cost == 0
    || device_limit == 0
    || global_limit == 0
    || ltb device_limit cost
    || ltb global_limit cost

-- `allowDeviceAndGlobal`.
unfoldable pub allow_device_and_global :
    String → ℕ → ℕ → ℕ → ℕ → WeightedWindowLimiter → WeightedWindowLimiter × Bool
allow_device_and_global device now cost device_limit global_limit l =
    let swept = sweep_all now l in
    if is_refused device cost device_limit global_limit
    then (l, false)
    else if has_room device swept
    then spend device now cost device_limit global_limit swept
    else (swept, false)
