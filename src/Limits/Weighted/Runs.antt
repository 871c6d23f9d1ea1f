-- ===== src/Limits/Weighted/Runs.antt =====
-- The budgets of `weightedWindowLimiter` over every sequence of calls
-- (internal/httpapi/agent_limits.go).
use mathlib.Core.Path.{subst}
use mathlib.Core.List.{append-nil}
use witshield.Base.{
  ℕ, ◌+◌, ◌≤◌, String, ◌≡◌, refl, ◌∙◌, inl, inr, All, Bool, true, List, [], ◌∷◌, ◌++◌, str_eq,
  eq_iff, Bool-cases, arith,
}
use witshield.Base.Dict.{lookup}
use witshield.Limits.Buckets.{alive, alive-append}
use witshield.Limits.Weighted.{
  WeightedAttempt, WeightedWindowLimiter, at_of, total_cost, allow_device_and_global,
  new_weighted_window_limiter,
}
use witshield.Limits.Weighted.Tracks.{
  History, of_device, of_all, of_device-snoc, of_all-snoc, Tracks, noted,
}
use witshield.Limits.Weighted.Budget.{allow-Tracks, window-allow, admitted_fits}

pub record Call : Type 0 where
  pub device : String
  pub now : ℕ
  pub cost : ℕ
  pub device_limit : ℕ
  pub global_limit : ℕ

-- The calls of `allowDeviceAndGlobal` in turn, with the history that they leave.
unfoldable pub run : WeightedWindowLimiter → History → List Call → WeightedWindowLimiter × History
run l h [] = (l, h)
run l h (c ∷ calls) =
    let (l', admitted) =
      allow_device_and_global c.device c.now c.cost c.device_limit c.global_limit l in
    run l' (noted h c.device c.now c.cost admitted) calls

-- The times do not decrease.
abbrev pub Ordered : ℕ → List Call → Type 0
Ordered s [] = Unit
Ordered s (c ∷ calls) = (s ≤ c.now) × Ordered c.now calls

abbrev pub last_time : ℕ → List Call → ℕ
last_time s [] = s
last_time s (c ∷ calls) = last_time c.now calls

total_cost-append :
    (xs ys : List WeightedAttempt) → total_cost (xs ++ ys) ≡ total_cost xs + total_cost ys
unfolding total_cost
total_cost-append [] ys = omega arith
total_cost-append (a ∷ xs) ys = omega (arith, total_cost-append xs ys)

total_cost-alive_mono :
    (window s t : ℕ) (xs : List WeightedAttempt)
    → s ≤ t
    → total_cost (alive at_of window t xs) ≤ total_cost (alive at_of window s xs)
unfolding alive total_cost
total_cost-alive_mono window s t [] h = omega arith
total_cost-alive_mono window s t (a ∷ xs) h = ground (arith, total_cost-alive_mono window s t xs h)

-- One more attempt adds at most its cost to a window.
total_cost-alive-snoc :
    (window s t : ℕ) (xs : List WeightedAttempt) (a : WeightedAttempt)
    → s ≤ t
    → total_cost (alive at_of window t (xs ++ (a ∷ [])))
      ≤ total_cost (alive at_of window s xs) + a.cost
unfolding alive total_cost
total_cost-alive-snoc window s t xs a h =
    rw
      (
        alive-append at_of window t xs (a ∷ []),
        total_cost-append (alive at_of window t xs) (alive at_of window t (a ∷ [])),
      )
      (ground (arith, total_cost-alive_mono window s t xs h))

record Within (n g : ℕ) (l : WeightedWindowLimiter) (h : History) (now : ℕ) : Type 0 where
  tracks : Tracks l h now
  device_fits :
      (d : String) (t : ℕ) → now ≤ t → total_cost (alive at_of l.window t (of_device d h)) ≤ n
  all_fit : (t : ℕ) → now ≤ t → total_cost (alive at_of l.window t (of_all h)) ≤ g

module _ {n g : ℕ} {l : WeightedWindowLimiter} {h : History} {s : ℕ} (c : Call) (le : s ≤ c.now)
    (w : Within n g l h s) where
  abbrev after : WeightedWindowLimiter × Bool
  after = allow_device_and_global c.device c.now c.cost c.device_limit c.global_limit l

  abbrev attempt : WeightedAttempt
  attempt = record { at = c.now; cost = c.cost }

  noted_device :
      c.device_limit ≤ n
      → after.1 ≡ true
      → (d : String) (t : ℕ) → c.now ≤ t
      → total_cost (alive at_of l.window t (of_device d (h ++ ((c.device, attempt) ∷ [])))) ≤ n
  noted_device small e d t hu = elim (Bool-cases (str_eq c.device d)) [
    | inl same ↦
        rw (of_device-snoc d c.device attempt h, same)
          (ground (
            arith,
            eq_iff c.device d,
            total_cost-alive-snoc l.window c.now t (of_device d h) attempt hu,
            (admitted_fits c.device c.now c.cost c.device_limit c.global_limit le w.tracks e).0,
          ))
    | inr other ↦
        rw (of_device-snoc d c.device attempt h, other, append-nil)
          (w.device_fits d t (omega arith))
  ]

  noted_all :
      c.global_limit ≤ g
      → after.1 ≡ true
      → (t : ℕ) → c.now ≤ t
      → total_cost (alive at_of l.window t (of_all (h ++ ((c.device, attempt) ∷ [])))) ≤ g
  noted_all small e t hu = rw (of_all-snoc c.device attempt h) (
      omega (
        arith,
        total_cost-alive-snoc l.window c.now t (of_all h) attempt hu,
        (admitted_fits c.device c.now c.cost c.device_limit c.global_limit le w.tracks e).1,
      ))

  allow-Within :
      c.device_limit ≤ n
      → c.global_limit ≤ g
      → Within n g after.0 (noted h c.device c.now c.cost after.1) c.now
  allow-Within small_device small_all = record {
    tracks = allow-Tracks c.device c.now c.cost c.device_limit c.global_limit le w.tracks;
    device_fits = λ d t hu.
        rw (window-allow c.device c.now c.cost c.device_limit c.global_limit le w.tracks)
          (elim (Bool-cases after.1) [
            | inl e ↦ rw e (noted_device small_device e d t hu)
            | inr e ↦ rw e (w.device_fits d t (omega arith))
          ]);
    all_fit = λ t hu.
        rw (window-allow c.device c.now c.cost c.device_limit c.global_limit le w.tracks)
          (elim (Bool-cases after.1) [
            | inl e ↦ rw e (noted_all small_all e t hu)
            | inr e ↦ rw e (w.all_fit t (omega arith))
          ]);
  }

abbrev pub Limited : ℕ → ℕ → List Call → Type 0
Limited n g = All (λ c. (c.device_limit ≤ n) × (c.global_limit ≤ g))

run-Within :
    {n g : ℕ} (calls : List Call) {s : ℕ} {l : WeightedWindowLimiter} {h : History}
    → Ordered s calls
    → Limited n g calls
    → Within n g l h s
    → Within n g (run l h calls).0 (run l h calls).1 (last_time s calls)
unfolding run
run-Within [] o b w = w
run-Within (c ∷ calls) o b w = run-Within calls o.1 b.1 (allow-Within c o.0 w b.0.0 b.0.1)

pub window-run :
    (calls : List Call) {s : ℕ} {l : WeightedWindowLimiter} {h : History}
    → Ordered s calls
    → Tracks l h s
    → (run l h calls).0.window ≡ l.window
unfolding run
window-run [] o t = refl
window-run (c ∷ calls) o t =
    window-run calls o.1 (allow-Tracks c.device c.now c.cost c.device_limit c.global_limit o.0 t)
    ∙ window-allow c.device c.now c.cost c.device_limit c.global_limit o.0 t

new-Within :
    (n g window max_keys : ℕ) → Within n g (new_weighted_window_limiter window max_keys) [] 0
unfolding new_weighted_window_limiter lookup of_device of_all alive total_cost
new-Within n g window max_keys = record {
  tracks = record { distinct = tt; device_same = λ d t le. refl; global_same = λ t le. refl };
  device_fits = λ d t le. omega arith;
  all_fit = λ t le. omega arith;
}

-- From a new limiter, after any calls of `allowDeviceAndGlobal` in the order of their times, with
-- device limits of at most `n` and global limits of at most `g`, in every window that ends at or
-- after the last call the admitted costs of one device add up to at most `n`, and those of all
-- devices to at most `g`.
pub weighted_quota :
    (n g window max_keys : ℕ) (calls : List Call)
    → Ordered 0 calls
    → Limited n g calls
    → (d : String) (t : ℕ) → last_time 0 calls ≤ t
    → let h = (run (new_weighted_window_limiter window max_keys) [] calls).1 in
      (total_cost (alive at_of window t (of_device d h)) ≤ n)
      × (total_cost (alive at_of window t (of_all h)) ≤ g)
unfolding new_weighted_window_limiter
weighted_quota n g window max_keys calls o b d t le =
    let l = new_weighted_window_limiter window max_keys in
    let start = new-Within n g window max_keys in
    let w = run-Within {n = n} {g = g} calls {s = 0} {l = l} {h = []} o b start in
    let h = (run l [] calls).1 in
    subst
      (λ x.
        (total_cost (alive at_of x t (of_device d h)) ≤ n)
        × (total_cost (alive at_of x t (of_all h)) ≤ g))
      (window-run calls {s = 0} {l = l} {h = []} o start.tracks)
      (w.device_fits d t le, w.all_fit t le)
