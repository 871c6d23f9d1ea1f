-- ===== src/Actions/Expiry/Select.antt =====
-- SELECT … WHERE … ORDER BY … LIMIT of the commands (internal/store/reports_commands.go): what it finds,
-- and what rows that only age keep.
use witshield.Base.{
  ℕ, zero, suc, ◌≤◌, String, Bool, true, false, ◌≡◌, refl, ap, ◌∙◌, List, [], ◌∷◌, All, length, map,
  leb, str_eq, eq_iff, if◌then◌else◌, ◌||◌, arith,
}
use witshield.Actions.Tables.{CommandRow}
use witshield.Actions.Statement.{count_where}
use witshield.Actions.Gate.{contains}
use witshield.Actions.Expiry.{select_where, insert_row, order_by, limit_to}

pub All-implied :
    {A : Type 0} (P Q : A → Type 0) (xs : List A) → ((x : A) → P x → Q x) → All P xs → All Q xs
All-implied P Q [] h a = tt
All-implied P Q (x ∷ xs) h (p, a) = (h x p, All-implied P Q xs h a)

module _ {A : Type 0} where
  pub length-select_where :
      (p : A → Bool) (xs : List A) → length (select_where p xs) ≡ count_where p xs
  unfolding select_where count_where
  length-select_where p [] = refl
  length-select_where p (x ∷ xs) = ground (arith, length-select_where p xs)

  length-insert_row :
      (key : A → ℕ) (x : A) (ys : List A) → length (insert_row key x ys) ≡ suc (length ys)
  unfolding insert_row
  length-insert_row key x [] = refl
  length-insert_row key x (y ∷ ys) = ground (arith, length-insert_row key x ys)

  pub length-order_by : (key : A → ℕ) (xs : List A) → length (order_by key xs) ≡ length xs
  unfolding order_by
  length-order_by key [] = refl
  length-order_by key (x ∷ xs) =
      length-insert_row key x (order_by key xs) ∙ ap suc (length-order_by key xs)

  pub limit_to-all : (n : ℕ) (xs : List A) → length xs ≤ n → limit_to n xs ≡ xs
  unfolding limit_to
  limit_to-all zero [] h = refl
  limit_to-all zero (x ∷ xs) h = absurd (omega arith)
  limit_to-all (suc n) [] h = refl
  limit_to-all (suc n) (x ∷ xs) h = ap (λ ys. x ∷ ys) (limit_to-all n xs (omega arith))

  pub length-limit_to : (n : ℕ) (xs : List A) → length (limit_to n xs) ≤ n
  unfolding limit_to
  length-limit_to zero xs = omega arith
  length-limit_to (suc n) [] = omega arith
  length-limit_to (suc n) (x ∷ xs) = let h = length-limit_to n xs in omega arith

  module _ (P : A → Type 0) where
    pub All-select_where :
        (p : A → Bool) (xs : List A) → All P xs → All (λ x. P x × (p x ≡ true)) (select_where p xs)
    unfolding select_where
    All-select_where p [] a = tt
    All-select_where p (x ∷ xs) (h, a) = row (p x) (λ e. e) (All-select_where p xs a)
      where
        row :
            (b : Bool)
            → (b ≡ true → p x ≡ true)
            → All (λ x. P x × (p x ≡ true)) (select_where p xs)
            → All (λ x. P x × (p x ≡ true)) (if b then x ∷ select_where p xs else select_where p xs)
        row true e a = ((h, e refl), a)
        row false e a = a

    All-insert_row :
        (key : A → ℕ) (x : A) (ys : List A) → P x → All P ys → All P (insert_row key x ys)
    unfolding insert_row
    All-insert_row key x [] h a = (h, tt)
    All-insert_row key x (y ∷ ys) h (py, a) =
        row (leb (key x) (key y)) (All-insert_row key x ys h a)
      where
        row :
            (b : Bool)
            → All P (insert_row key x ys)
            → All P (if b then x ∷ y ∷ ys else y ∷ insert_row key x ys)
        row true later = (h, (py, a))
        row false later = (py, later)

    pub All-order_by : (key : A → ℕ) (xs : List A) → All P xs → All P (order_by key xs)
    unfolding order_by
    All-order_by key [] a = tt
    All-order_by key (x ∷ xs) (h, a) = All-insert_row key x _ h (All-order_by key xs a)

    pub All-limit_to : (n : ℕ) (xs : List A) → All P xs → All P (limit_to n xs)
    unfolding limit_to
    All-limit_to zero xs a = tt
    All-limit_to (suc n) [] a = tt
    All-limit_to (suc n) (x ∷ xs) (h, a) = (h, All-limit_to n xs a)

abbrev pub ids : List CommandRow → List String
ids = map (λ (c : CommandRow). c.id)

contains-insert_row :
    (name : String) (key : CommandRow → ℕ) (c : CommandRow) (cs : List CommandRow)
    → contains name (ids (insert_row key c cs)) ≡ str_eq c.id name || contains name (ids cs)
unfolding contains insert_row
contains-insert_row name key c [] = refl
contains-insert_row name key c (d ∷ cs) = ground (arith, contains-insert_row name key c cs)

pub contains-order_by :
    (name : String) (key : CommandRow → ℕ) (cs : List CommandRow)
    → contains name (ids (order_by key cs)) ≡ contains name (ids cs)
unfolding contains order_by
contains-order_by name key [] = refl
contains-order_by name key (c ∷ cs) =
    contains-insert_row name key c (order_by key cs)
    ∙ ap (λ b. str_eq c.id name || b) (contains-order_by name key cs)

-- Every row that satisfies the condition is selected.
pub contains-select_where :
    (p : CommandRow → Bool) (cs : List CommandRow)
    → All (λ c. p c ≡ true → contains c.id (ids (select_where p cs)) ≡ true) cs
unfolding select_where contains
contains-select_where p [] = tt
contains-select_where p (c ∷ cs) = (
  λ h. ground (arith, eq_iff c.id c.id),
  All-implied _ _ cs (λ d f h. ground (arith, f h)) (contains-select_where p cs),
)
