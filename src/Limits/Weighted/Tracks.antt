-- ===== src/Limits/Weighted/Tracks.antt =====
-- `weightedWindowLimiter` beside the history of what it has admitted (internal/httpapi/agent_limits.go).
use Prim.Native.Char.{code}
use text.Mathlib.TextLemmas.{append_cancel_left, cons-append}
use Prim.Native.String.{◌++◌ as cat}
use witshield.Base.{
  ℕ, ◌≤◌, String, ◌≡◌, ◌≢◌, refl, ap, ◌∙◌, inl, inr, Bool, true, false, List, [], ◌∷◌, ◌++◌, str_eq,
  if◌then◌else◌, eq_iff, Bool-cases, arith,
}
use witshield.Base.Dict.{Distinct}
use witshield.Limits.Buckets.{
  alive, bucket, alive-alive, bucket-maybe_sweep, maybe_sweep-Distinct, bucket-put_or_delete,
  put_or_delete-Distinct,
}
use witshield.Limits.Weighted.{
  WeightedAttempt, WeightedWindowLimiter, at_of, device_key, global_key, pruned, prune, sweep_all,
}

-- The admitted attempts, in order, each with its device.
abbrev pub History : Type 0
History = List (String × WeightedAttempt)

unfoldable pub of_device : String → History → List WeightedAttempt
of_device device [] = []
of_device device ((d, a) ∷ h) =
    let rest = of_device device h in if str_eq d device then a ∷ rest else rest

unfoldable pub of_all : History → List WeightedAttempt
of_all [] = []
of_all ((d, a) ∷ h) = a ∷ of_all h

pub of_device-snoc :
    (device d : String) (a : WeightedAttempt) (h : History)
    → of_device device (h ++ ((d, a) ∷ []))
      ≡ of_device device h ++ (if str_eq d device then a ∷ [] else [])
unfolding of_device
of_device-snoc device d a [] = ground arith
of_device-snoc device d a ((j, b) ∷ h) = ground (arith, of_device-snoc device d a h)

pub of_all-snoc :
    (d : String) (a : WeightedAttempt) (h : History)
    → of_all (h ++ ((d, a) ∷ [])) ≡ of_all h ++ (a ∷ [])
unfolding of_all
of_all-snoc d a [] = refl
of_all-snoc d a ((j, b) ∷ h) = ap (◌∷◌ b) (of_all-snoc d a h)

first_code : String → ℕ
first_code String.[] = 0
first_code (String.◌∷◌ c s) = code c

device_key-first_code : (device : String) → first_code (device_key device) ≡ b'd'
unfolding device_key first_code
device_key-first_code device = ap first_code (cons-append "d" "evice:" device)

-- No device's key is the key of the whole Controller.
pub device_key-ne-global : (device : String) → device_key device ≢ global_key
unfolding first_code
device_key-ne-global device e =
    absurd (omega (arith, device_key-first_code device, ap first_code e))

pub false_of_ne : {s t : String} → s ≢ t → str_eq s t ≡ false
false_of_ne {s} {t} h = ground (arith, eq_iff s t)

pub device_key-eq : (c d : String) → str_eq (device_key c) (device_key d) ≡ str_eq c d
unfolding device_key
device_key-eq c d = ground (
  arith,
  eq_iff (cat "device:" c) (cat "device:" d),
  eq_iff c d,
  append_cancel_left "device:" c d,
)

-- From `now` on, the limiter and the history show the same attempts in every window.
pub record Tracks (l : WeightedWindowLimiter) (h : History) (now : ℕ) : Type 0 where
  pub distinct : Distinct l.attempts
  pub device_same :
      (d : String) (t : ℕ)
      → now ≤ t
      → alive at_of l.window t (bucket l.attempts (device_key d))
        ≡ alive at_of l.window t (of_device d h)
  pub global_same :
      (t : ℕ)
      → now ≤ t
      → alive at_of l.window t (bucket l.attempts global_key) ≡ alive at_of l.window t (of_all h)

pub later-Tracks :
    {l : WeightedWindowLimiter} {h : History} {s : ℕ} (now : ℕ)
    → s ≤ now
    → Tracks l h s
    → Tracks l h now
later-Tracks now le t = record {
  distinct = t.distinct;
  device_same = λ d u hu. t.device_same d u (omega arith);
  global_same = λ u hu. t.global_same u (omega arith);
}

pub sweep_all-Tracks :
    {l : WeightedWindowLimiter} {h : History} {s : ℕ} (now : ℕ)
    → s ≤ now
    → Tracks l h s
    → Tracks (sweep_all now l) h now
unfolding sweep_all
sweep_all-Tracks {l} {h} now le t = record {
  distinct = maybe_sweep-Distinct at_of l.window l.last_sweep now l.attempts t.distinct;
  device_same = λ d u hu.
      bucket-maybe_sweep at_of l.window l.last_sweep now u (device_key d) l.attempts t.distinct hu
      ∙ t.device_same d u (omega arith);
  global_same = λ u hu.
      bucket-maybe_sweep at_of l.window l.last_sweep now u global_key l.attempts t.distinct hu
      ∙ t.global_same u (omega arith);
}

-- Pruning a key shows the same attempts of every key.
bucket-prune :
    (key k : String) (now u : ℕ) (l : WeightedWindowLimiter)
    → now ≤ u
    → alive at_of l.window u (bucket (prune key now l).attempts k)
      ≡ alive at_of l.window u (bucket l.attempts k)
unfolding prune
bucket-prune key k now u l hu =
    rw (bucket-put_or_delete at_of l.window key k (pruned key now l) l.attempts)
      (elim (Bool-cases (str_eq key k)) [
        | inl e ↦ rw e (
            ground
              (arith, eq_iff key k, alive-alive at_of l.window now u (bucket l.attempts key) hu))
        | inr e ↦ rw e
      ])

pub prune-Tracks :
    {l : WeightedWindowLimiter} {h : History} (key : String) (now : ℕ)
    → Tracks l h now
    → Tracks (prune key now l) h now
unfolding prune
prune-Tracks {l} {h} key now t = record {
  distinct = put_or_delete-Distinct at_of l.window key (pruned key now l) l.attempts t.distinct;
  device_same = λ d u hu. bucket-prune key (device_key d) now u l hu ∙ t.device_same d u hu;
  global_same = λ u hu. bucket-prune key global_key now u l hu ∙ t.global_same u hu;
}

abbrev pub noted : History → String → ℕ → ℕ → Bool → History
noted h device now cost true = h ++ ((device, record { at = now; cost = cost }) ∷ [])
noted h device now cost false = h
