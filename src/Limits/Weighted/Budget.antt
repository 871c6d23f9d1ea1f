-- ===== src/Limits/Weighted/Budget.antt =====
-- `weightedWindowLimiter` against the history of what it has admitted: the device budget and the
-- budget of the whole Controller both hold in every window (internal/httpapi/agent_limits.go).
use mathlib.Core.List.{append-nil}
use mathlib.Core.Path.{ap₂}
use witshield.Base.{
  ℕ, ◌+◌, ◌≤◌, String, ◌≡◌, refl, sym, ap, ◌∙◌, inl, inr, Bool, true, false, ◌&&◌, not, List, [],
  ◌∷◌, ◌++◌, leb, str_eq, eq_iff, Bool-cases, arith,
}
use witshield.Base.Dict.{insert, insert-Distinct}
use witshield.Limits.Buckets.{alive, bucket, alive-alive, alive-append, bucket-insert}
use witshield.Limits.Weighted.{
  WeightedAttempt, WeightedWindowLimiter, at_of, total_cost, device_key, global_key, pruned, prune,
  sweep_all, has_room, record_attempt, over_budget, spend, is_refused, allow_device_and_global,
}
use witshield.Limits.Weighted.Tracks.{
  History, of_device, of_all, of_device-snoc, of_all-snoc, device_key-ne-global, false_of_ne,
  device_key-eq, Tracks, later-Tracks, sweep_all-Tracks, prune-Tracks, noted,
}

-- `ds` shows what the history `xs` shows, from `now` on.
abbrev Shows : WeightedWindowLimiter → ℕ → List WeightedAttempt → List WeightedAttempt → Type 0
Shows l now ds xs = (u : ℕ) → now ≤ u → alive at_of l.window u ds ≡ alive at_of l.window u xs

snoc-Shows :
    (l : WeightedWindowLimiter) (now : ℕ) (ds xs : List WeightedAttempt) (a : WeightedAttempt)
    → Shows l now ds xs
    → Shows l now (ds ++ (a ∷ [])) (xs ++ (a ∷ []))
snoc-Shows l now ds xs a h u hu =
    rw
      (alive-append at_of l.window u ds (a ∷ []), alive-append at_of l.window u xs (a ∷ []), h u hu)

module _ {l : WeightedWindowLimiter} {h : History} (device : String) (now : ℕ) (t : Tracks l h now)
    (a : WeightedAttempt) (ds gs : List WeightedAttempt) (dh : Shows l now ds (of_device device h))
    (gh : Shows l now gs (of_all h)) where
  recorded_device :
      (d : String) (u : ℕ)
      → now ≤ u
      → alive at_of l.window u (bucket (record_attempt device a ds gs l).attempts (device_key d))
        ≡ alive at_of l.window u (of_device d (h ++ ((device, a) ∷ [])))
  unfolding record_attempt
  recorded_device d u hu =
      rw
        (
          bucket-insert at_of l.window global_key (device_key d) (gs ++ (a ∷ []))
              (insert (device_key device) (ds ++ (a ∷ [])) l.attempts),
          false_of_ne (λ e. device_key-ne-global d (sym e)),
          bucket-insert at_of l.window (device_key device) (device_key d) (ds ++ (a ∷ []))
              l.attempts,
          device_key-eq device d,
          of_device-snoc d device a h,
        )
        (elim (Bool-cases (str_eq device d)) [
          | inl e ↦ rw e (
              snoc-Shows l now ds (of_device d h) a
                (λ v hv.
                  dh v hv
                  ∙ ap (λ x. alive at_of l.window v (of_device x h)) ((eq_iff device d).0 e))
                u hu)
          | inr e ↦ rw (e, append-nil) (t.device_same d u hu)
        ])

  record_attempt-Tracks : Tracks (record_attempt device a ds gs l) (h ++ ((device, a) ∷ [])) now
  unfolding record_attempt
  record_attempt-Tracks = record {
    distinct =
        insert-Distinct global_key (gs ++ (a ∷ []))
          (insert (device_key device) (ds ++ (a ∷ [])) l.attempts)
          (insert-Distinct (device_key device) (ds ++ (a ∷ [])) l.attempts t.distinct);
    device_same = recorded_device;
    global_same = λ u hu.
        rw
          (
            bucket-insert at_of l.window global_key global_key (gs ++ (a ∷ []))
                (insert (device_key device) (ds ++ (a ∷ [])) l.attempts),
            of_all-snoc device a h,
          )
          (snoc-Shows l now gs (of_all h) a gh u hu);
  }

-- The lists that `spend` prunes show the history.
pruned-Shows :
    (l : WeightedWindowLimiter) (key : String) (now : ℕ) (xs : List WeightedAttempt)
    → Shows l now (bucket l.attempts key) xs
    → Shows l now (pruned key now l) xs
pruned-Shows l key now xs h u hu =
    alive-alive at_of l.window now u (bucket l.attempts key) hu ∙ h u hu

module _ {l : WeightedWindowLimiter} {h : History} (device : String)
    (now cost device_limit global_limit : ℕ) (t : Tracks l h now) where
  abbrev device_attempts : List WeightedAttempt
  device_attempts = pruned (device_key device) now l

  abbrev global_attempts : List WeightedAttempt
  global_attempts = pruned global_key now (prune (device_key device) now l)

  spend-Tracks :
      Tracks
        (spend device now cost device_limit global_limit l).0
        (noted h device now cost (spend device now cost device_limit global_limit l).1)
        now
  unfolding spend prune
  spend-Tracks =
      let l₁ = prune (device_key device) now l in
      let t₁ : Tracks l₁ h now = prune-Tracks (device_key device) now t in
      let t₂ : Tracks (prune global_key now l₁) h now = prune-Tracks global_key now t₁ in
      elim (Bool-cases
        (over_budget cost device_limit global_limit device_attempts global_attempts)) [
          | inl e ↦ rw e t₂
          | inr e ↦ rw e (
              record_attempt-Tracks device now t₂ (record { at = now; cost = cost }) device_attempts
                global_attempts
                (pruned-Shows l (device_key device) now (of_device device h) (t.device_same device))
                (pruned-Shows l₁ global_key now (of_all h) t₁.global_same))
        ]

  -- What both budgets leave, in the terms of the history.
  abbrev fits : Bool
  fits =
      leb (total_cost (alive at_of l.window now (of_device device h)) + cost) device_limit
      && leb (total_cost (alive at_of l.window now (of_all h)) + cost) global_limit

  spend-over_budget :
      (spend device now cost device_limit global_limit l).1
      ≡ not (over_budget cost device_limit global_limit device_attempts global_attempts)
  unfolding spend
  spend-over_budget =
      elim (Bool-cases
        (over_budget cost device_limit global_limit device_attempts global_attempts)) [
          | inl e ↦ rw (e, not)
          | inr e ↦ rw (e, not)
        ]

  fits-over_budget :
      not (
        over_budget cost device_limit global_limit
          (alive at_of l.window now (of_device device h))
          (alive at_of l.window now (of_all h)))
      ≡ fits
  unfolding over_budget
  fits-over_budget = ground arith

  spend-fits : (spend device now cost device_limit global_limit l).1 ≡ fits
  unfolding prune
  spend-fits =
      let t₁ : Tracks (prune (device_key device) now l) h now =
        prune-Tracks (device_key device) now t in
      let dh : device_attempts ≡ alive at_of l.window now (of_device device h) =
        t.device_same device now (omega arith) in
      let gh : global_attempts ≡ alive at_of l.window now (of_all h) =
        t₁.global_same now (omega arith) in
      spend-over_budget
      ∙ ap₂ (λ x y. not (over_budget cost device_limit global_limit x y)) dh gh
      ∙ fits-over_budget

module _ {l : WeightedWindowLimiter} {h : History} {s : ℕ} (device : String)
    (now cost device_limit global_limit : ℕ) (le : s ≤ now) (t : Tracks l h s) where
  -- One call, at a time that is not before the last.
  pub allow-Tracks :
      Tracks
        (allow_device_and_global device now cost device_limit global_limit l).0
        (noted h device now cost
          (allow_device_and_global device now cost device_limit global_limit l).1)
        now
  unfolding allow_device_and_global
  allow-Tracks = elim (Bool-cases (is_refused device cost device_limit global_limit)) [
    | inl e ↦ rw e (later-Tracks now le t)
    | inr e ↦ rw e (
        let swept : Tracks (sweep_all now l) h now = sweep_all-Tracks now le t in
        elim (Bool-cases (has_room device (sweep_all now l))) [
          | inl room ↦ rw room (spend-Tracks device now cost device_limit global_limit swept)
          | inr full ↦ rw full swept
        ])
  ]

  -- A well-formed request of a device for which the swept map has room is admitted exactly when the
  -- admitted costs in the window, with its own, stay within the device's limit and within the
  -- Controller's.
  pub allow-fits :
      is_refused device cost device_limit global_limit ≡ false
      → has_room device (sweep_all now l) ≡ true
      → (allow_device_and_global device now cost device_limit global_limit l).1 ≡ (
          leb (total_cost (alive at_of l.window now (of_device device h)) + cost) device_limit
          && leb (total_cost (alive at_of l.window now (of_all h)) + cost) global_limit)
  unfolding allow_device_and_global sweep_all
  allow-fits proper room =
      let swept : Tracks (sweep_all now l) h now = sweep_all-Tracks now le t in
      rw (proper, room) (spend-fits device now cost device_limit global_limit swept)

  window-spend :
      (m : WeightedWindowLimiter)
      → (spend device now cost device_limit global_limit m).0.window ≡ m.window
  unfolding spend prune record_attempt
  window-spend m =
      elim (Bool-cases (
        over_budget cost device_limit global_limit (pruned (device_key device) now m)
          (pruned global_key now (prune (device_key device) now m)))) [
            | inl e ↦ rw e
            | inr e ↦ rw e
          ]

  pub window-allow :
      (allow_device_and_global device now cost device_limit global_limit l).0.window ≡ l.window
  unfolding allow_device_and_global sweep_all
  window-allow = ground (arith, window-spend (sweep_all now l))

  -- An admitted attempt fits both budgets.
  pub admitted_fits :
      (allow_device_and_global device now cost device_limit global_limit l).1 ≡ true
      → (total_cost (alive at_of l.window now (of_device device h)) + cost ≤ device_limit)
        × (total_cost (alive at_of l.window now (of_all h)) + cost ≤ global_limit)
  unfolding allow_device_and_global
  admitted_fits admitted =
      let swept : Tracks (sweep_all now l) h now = sweep_all-Tracks now le t in
      let same : (sweep_all now l).window ≡ l.window = unfold sweep_all in refl in
      ground (arith, same, spend-fits device now cost device_limit global_limit swept)
