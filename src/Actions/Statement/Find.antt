-- ===== src/Actions/Statement/Find.antt =====
-- A row is found by its key after an update or an insertion.
use witshield.Base.{
  inr, inl, Bool-cases, Bool, ◌≡◌, refl, Option, none, some, List, [], ◌∷◌, ◌++◌, if◌then◌else◌,
  arith,
}
use witshield.Actions.Statement.{true, first_where, update_where}

-- The row that an update leaves, if it is found.
abbrev pub updated {ℓ} : {A : Type ℓ} → (A → Bool) → (A → A) → Option A → Option A
updated p f none = none
updated p f (some r) = some (if p r then f r else r)

module _ {ℓ} {A : Type ℓ} where
  -- An update that leaves the key alone is seen through it.
  pub first_where-update :
      (key p : A → Bool) (f : A → A) (rows : List A)
      → ((r : A) → p r ≡ true → key (f r) ≡ key r)
      → first_where key (update_where p f rows) ≡ updated p f (first_where key rows)
  unfolding first_where update_where
  first_where-update key p f [] keeps = refl
  first_where-update key p f (r ∷ rows) keeps =
      ground (arith, keeps r, first_where-update key p f rows keeps)

  abbrev pub or_else : Option A → Option A → Option A
  or_else none o = o
  or_else (some a) o = some a

  pub first_where-append :
      (key : A → Bool) (rows : List A) (r : A)
      → first_where key (rows ++ r ∷ [])
        ≡ or_else (first_where key rows) (if key r then some r else none)
  unfolding first_where
  first_where-append key [] r = refl
  first_where-append key (x ∷ rows) r = ground (arith, first_where-append key rows r)

  -- What is found satisfies the condition.
  pub first_where-holds :
      (key : A → Bool) (rows : List A) {r : A} → first_where key rows ≡ some r → key r ≡ true
  unfolding first_where
  first_where-holds key [] h = cc
  first_where-holds key (x ∷ rows) h = elim (Bool-cases (key x)) [
    | inl e ↦ ground arith
    | inr e ↦ first_where-holds key rows (ground arith)
  ]
