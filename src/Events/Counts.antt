-- ===== src/Events/Counts.antt =====
-- Counts of rows through the changes of a table.
use witshield.Base.{
  ◌≤◌, ◌+◌, Bool, true, false, ◌≡◌, refl, none, List, [], ◌∷◌, ◌++◌, if◌then◌else◌, arith,
}
use witshield.Actions.Statement.{count_where, first_where, update_where}
use witshield.Events.Windows.{delete_where}

module _ {A : Type 0} where
  pub count-append :
      (p : A → Bool) (rows : List A) (x : A)
      → count_where p (rows ++ x ∷ []) ≡ count_where p rows + (if p x then 1 else 0)
  unfolding count_where
  count-append p [] x = ground arith
  count-append p (y ∷ rows) x = ground (arith, count-append p rows x)

  -- An update that leaves the condition alone leaves the count alone.
  pub count-update :
      (q p : A → Bool) (f : A → A) (rows : List A)
      → ((x : A) → p x ≡ true → q (f x) ≡ q x)
      → count_where q (update_where p f rows) ≡ count_where q rows
  unfolding count_where update_where
  count-update q p f [] h = refl
  count-update q p f (x ∷ rows) h = ground (arith, h x, count-update q p f rows h)

  pub count-delete :
      (q p : A → Bool) (rows : List A)
      → ((x : A) → p x ≡ true → q x ≡ true)
      → count_where q (delete_where p rows) + count_where p rows ≡ count_where q rows
  unfolding count_where delete_where
  count-delete q p [] h = refl
  count-delete q p (x ∷ rows) h = ground (arith, h x, count-delete q p rows h)

  -- The rows of a condition are those of two parts of it.
  pub count-split :
      (p q r : A → Bool) (rows : List A)
      → ((x : A) → p x ≡ true → (q x ≡ true) → r x ≡ false)
      → ((x : A) → p x ≡ true → q x ≡ false → r x ≡ true)
      → ((x : A) → q x ≡ true → p x ≡ true)
      → ((x : A) → r x ≡ true → p x ≡ true)
      → count_where p rows ≡ count_where q rows + count_where r rows
  unfolding count_where
  count-split p q r [] a b c d = refl
  count-split p q r (x ∷ rows) a b c d =
      ground (arith, a x, b x, c x, d x, count-split p q r rows a b c d)

  pub count-absent :
      (p : A → Bool) (rows : List A) → first_where p rows ≡ none → count_where p rows ≡ 0
  unfolding count_where first_where
  count-absent p [] h = refl
  count-absent p (x ∷ rows) h = ground (arith, count-absent p rows)

  pub count-delete_le :
      (q p : A → Bool) (rows : List A) → count_where q (delete_where p rows) ≤ count_where q rows
  unfolding count_where delete_where
  count-delete_le q p [] = omega arith
  count-delete_le q p (x ∷ rows) = ground (arith, count-delete_le q p rows)
