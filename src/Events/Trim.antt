-- ===== src/Events/Trim.antt =====
-- DELETE of the rows that an ordered SELECT with LIMIT -1 OFFSET k returns: of the rows that satisfy the
-- condition, all but the first k in the order. The list is in the order of the rowids.
use witshield.Base.{
  some, ap, leb, ◌||◌, ℕ, suc, zero, ◌+◌, ◌-◌, ◌≤◌, ◌<◌, Bool, true, false, not, ◌&&◌, ◌≡◌, refl,
  ◌∙◌, List, [], ◌∷◌, if◌then◌else◌, Bool-cases, inl, inr, arith,
}
use witshield.Actions.Statement.{count_where, first_where}

module _ {ℓ} {A : Type ℓ} (p : A → Bool) where
  -- Some row of the condition comes after `x` in the order.
  has_lower : (A → A → Bool) → A → List A → Bool
  has_lower less x [] = false
  has_lower less x (y ∷ rows) = (p y && less y x) || has_lower less x rows

  -- Remove the last row of the order: among equals the one with the least rowid.
  unfoldable pub remove_last : (A → A → Bool) → List A → List A
  unfolding has_lower
  remove_last less [] = []
  remove_last less (x ∷ rows) =
      let rest = remove_last less rows in
      if p x && not (has_lower less x rows) then rows else x ∷ rest

  unfoldable pub remove_times : ℕ → (A → A → Bool) → List A → List A
  unfolding remove_last
  remove_times zero less rows = rows
  remove_times (suc n) less rows = remove_times n less (remove_last less rows)

  unfoldable pub keep_first : ℕ → (A → A → Bool) → List A → List A
  unfolding remove_times
  keep_first k less rows = remove_times (count_where p rows - k) less rows

  has_lower-count :
      (less : A → A → Bool) (x : A) (rows : List A)
      → has_lower less x rows ≡ true
      → 0 < count_where p rows
  unfolding has_lower count_where
  has_lower-count less x [] h = cc
  has_lower-count less x (y ∷ rows) h = ground (arith, has_lower-count less x rows)

  count-remove_last :
      (less : A → A → Bool) (rows : List A) (n : ℕ)
      → count_where p rows ≡ suc n
      → count_where p (remove_last less rows) ≡ n
  unfolding remove_last count_where
  count-remove_last less [] n h = cc
  count-remove_last less (x ∷ rows) n h = ground (
    arith,
    has_lower-count less x rows,
    count-remove_last less rows n,
    count-remove_last less rows (n - 1),
  )

  count-remove_times :
      (n : ℕ) (less : A → A → Bool) (rows : List A) (m : ℕ)
      → count_where p rows ≡ n + m
      → count_where p (remove_times n less rows) ≡ m
  unfolding remove_times
  count-remove_times zero less rows m h = omega arith
  count-remove_times (suc n) less rows m h =
      count-remove_times n less (remove_last less rows) m
        (count-remove_last less rows (n + m) (omega arith))

  count-keep_first :
      (k : ℕ) (less : A → A → Bool) (rows : List A)
      → k ≤ count_where p rows
      → count_where p (keep_first k less rows) ≡ k
  unfolding keep_first
  count-keep_first k less rows h =
      count-remove_times (count_where p rows - k) less rows k (omega arith)

  -- Where there are few rows, all stay.
  keep_first-few :
      (k : ℕ) (less : A → A → Bool) (rows : List A)
      → count_where p rows ≤ k
      → keep_first k less rows ≡ rows
  unfolding keep_first remove_times
  keep_first-few k less rows h =
      let none_over : count_where p rows - k ≡ 0 = omega arith in
      ap (λ n. remove_times n less rows) none_over

  pub count-keep_first_le :
      (k : ℕ) (less : A → A → Bool) (rows : List A) → count_where p (keep_first k less rows) ≤ k
  count-keep_first_le k less rows = elim (Bool-cases (leb k (count_where p rows))) [
    | inl e ↦
        let h : k ≤ count_where p rows = ground arith in
        omega (arith, count-keep_first k less rows h)
    | inr e ↦ let h : count_where p rows ≤ k = ground arith in rw (keep_first-few k less rows h) h
  ]

  module _ (q : A → Bool) where
    count-remove_last_le :
        (less : A → A → Bool) (rows : List A)
        → count_where q (remove_last less rows) ≤ count_where q rows
    unfolding remove_last count_where
    count-remove_last_le less [] = omega arith
    count-remove_last_le less (x ∷ rows) = ground (arith, count-remove_last_le less rows)

    count-remove_times_le :
        (n : ℕ) (less : A → A → Bool) (rows : List A)
        → count_where q (remove_times n less rows) ≤ count_where q rows
    unfolding remove_times
    count-remove_times_le zero less rows = omega arith
    count-remove_times_le (suc n) less rows = omega (
      arith,
      count-remove_times_le n less (remove_last less rows),
      count-remove_last_le less rows,
    )

    pub count-keep_first_mono :
        (k : ℕ) (less : A → A → Bool) (rows : List A)
        → count_where q (keep_first k less rows) ≤ count_where q rows
    unfolding keep_first
    count-keep_first_mono k less rows = count-remove_times_le (count_where p rows - k) less rows

  module _ (q : A → Bool) (apart : (x : A) → p x ≡ true → q x ≡ false) where
    count-remove_last_apart :
        (less : A → A → Bool) (rows : List A)
        → count_where q (remove_last less rows) ≡ count_where q rows
    unfolding remove_last count_where
    count-remove_last_apart less [] = refl
    count-remove_last_apart less (x ∷ rows) =
        ground (arith, apart x, count-remove_last_apart less rows)

    find-remove_last_apart :
        (less : A → A → Bool) (rows : List A)
        → first_where q (remove_last less rows) ≡ first_where q rows
    unfolding remove_last first_where
    find-remove_last_apart less [] = refl
    find-remove_last_apart less (x ∷ rows) =
        ground (arith, apart x, find-remove_last_apart less rows)

    remove_times_apart :
        (n : ℕ) (less : A → A → Bool) (rows : List A)
        → (count_where q (remove_times n less rows) ≡ count_where q rows)
          × (first_where q (remove_times n less rows) ≡ first_where q rows)
    unfolding remove_times
    remove_times_apart zero less rows = (refl, refl)
    remove_times_apart (suc n) less rows =
        let (counts, finds) = remove_times_apart n less (remove_last less rows) in
        (counts ∙ count-remove_last_apart less rows, finds ∙ find-remove_last_apart less rows)

    -- Rows outside the condition are left alone.
    pub keep_first_apart :
        (k : ℕ) (less : A → A → Bool) (rows : List A)
        → (count_where q (keep_first k less rows) ≡ count_where q rows)
          × (first_where q (keep_first k less rows) ≡ first_where q rows)
    unfolding keep_first
    keep_first_apart k less rows = remove_times_apart (count_where p rows - k) less rows

  -- A row that is found and does not satisfy the condition is still found.
  module _ (q : A → Bool) (x : A) (spared : p x ≡ false) where
    find-remove_last :
        (less : A → A → Bool) (rows : List A)
        → first_where q rows ≡ some x
        → first_where q (remove_last less rows) ≡ some x
    unfolding remove_last first_where
    find-remove_last less [] h = h
    find-remove_last less (y ∷ rows) h = ground (arith, h, spared, find-remove_last less rows)

    pub find-remove_times :
        (n : ℕ) (less : A → A → Bool) (rows : List A)
        → first_where q rows ≡ some x
        → first_where q (remove_times n less rows) ≡ some x
    unfolding remove_times
    find-remove_times zero less rows h = h
    find-remove_times (suc n) less rows h =
        find-remove_times n less (remove_last less rows) (find-remove_last less rows h)

    pub find-keep_first :
        (k : ℕ) (less : A → A → Bool) (rows : List A)
        → first_where q rows ≡ some x
        → first_where q (keep_first k less rows) ≡ some x
    unfolding keep_first
    find-keep_first k less rows = find-remove_times (count_where p rows - k) less rows

  pub count-remove_times_mono :
      (q : A → Bool) (n : ℕ) (less : A → A → Bool) (rows : List A)
      → count_where q (remove_times n less rows) ≤ count_where q rows
  count-remove_times_mono q n less rows = count-remove_times_le q n less rows
