-- ===== src/Actions/Lifecycle/Unique.antt =====
-- The primary key of `actions`, and what an update by it tells of the row.
use witshield.Actions.Statement.Find.{updated}
use mathlib.Core.Path.{subst}
use witshield.Base.{
  inr, inl, Bool-cases, String, Bool, true, false, ◌≡◌, ◌≢◌, refl, sym, ap, ◌∙◌, none, some, List,
  [], ◌∷◌, ◌++◌, str_eq, eq_iff, if◌then◌else◌, arith,
}
use witshield.Actions.Tables.{ActionRow}
use witshield.Actions.Statement.{find_action, first_where, update_where, count_where}
use witshield.Actions.Lifecycle.{Step}
use witshield.Actions.Lifecycle.Sequences.{OfActions}
use witshield.Actions.Lifecycle.Course.{find_action-update, find_action-append, Step-SameProposal}

-- No id stands twice.
abbrev pub Unique : List ActionRow → Type 0
Unique [] = Unit
Unique (r ∷ rest) = (find_action r.id rest ≡ none) × Unique rest

Unique-update :
    (p : ActionRow → Bool) (f : ActionRow → ActionRow) (rows : List ActionRow)
    → ((r : ActionRow) → p r ≡ true → Step r (f r))
    → Unique rows
    → Unique (update_where p f rows)
unfolding update_where
Unique-update p f [] h u = u
Unique-update p f (r ∷ rest) h (new, u) =
    let same_id : (if p r then f r else r).id ≡ r.id = row (p r) (h r) in
    (
      ap (λ id. find_action id (update_where p f rest)) same_id
          ∙ find_action-update r.id p f rest h
          ∙ ap (updated p f) new,
      Unique-update p f rest h u,
    )
  where
    row : (b : Bool) → (b ≡ true → Step r (f r)) → (if b then f r else r).id ≡ r.id
    row true st = (Step-SameProposal (st refl)).id
    row false st = refl

Unique-append :
    (rows : List ActionRow) (r : ActionRow)
    → find_action r.id rows ≡ none
    → Unique rows
    → Unique (rows ++ r ∷ [])
unfolding find_action first_where
Unique-append [] r new u = (refl, tt)
Unique-append (x ∷ rest) r new (alone, u) = (
  find_action-append x.id rest r ∙ ground (arith, eq_iff r.id x.id, eq_iff x.id r.id),
  Unique-append rest r (ground arith) u,
)

pub Unique-kept : OfActions (λ s t. Unique s.actions → Unique t.actions)
Unique-kept = record {
  order = record { same = λ s u. u; then_ = λ f g u. g (f u) };
  same_actions = λ s t e u. subst Unique (sym e) u;
  moves = λ p f h s u. Unique-update p f s.actions h u;
  adds = λ r fresh s new u. Unique-append s.actions r new u;
}

module _ (id : String) (q : ActionRow → Bool)
    (by_id : (r : ActionRow) → q r ≡ true → str_eq r.id id ≡ true) where
  count_absent : (rows : List ActionRow) → find_action id rows ≡ none → count_where q rows ≡ 0
  unfolding find_action first_where count_where
  count_absent [] h = refl
  count_absent (r ∷ rest) h = ground (arith, by_id r, count_absent rest)

  -- An update by id that affects a row affects the one that is found.
  pub count-find :
      (rows : List ActionRow)
      → Unique rows
      → count_where q rows ≢ 0
      → (r : ActionRow) × (find_action id rows ≡ some r) × (q r ≡ true)
  unfolding find_action first_where count_where
  count-find [] u h = absurd (h refl)
  count-find (r ∷ rest) (alone, u) h = elim (Bool-cases (str_eq r.id id)) [
    | inl e ↦ (r, ground arith, ground (arith, eq_iff r.id id, count_absent rest))
    | inr e ↦
        let later = count-find rest u (λ z. h (ground (arith, by_id r))) in
        (later.0, ground arith, later.2)
  ]

  -- Where the row that is found does not satisfy the condition, no row is affected.
  pub count-eq-zero :
      (rows : List ActionRow)
      → Unique rows
      → ((r : ActionRow) → find_action id rows ≡ some r → q r ≡ false)
      → count_where q rows ≡ 0
  unfolding find_action first_where count_where
  count-eq-zero [] u h = refl
  count-eq-zero (r ∷ rest) (alone, u) h = elim (Bool-cases (str_eq r.id id)) [
    | inl e ↦ ground (arith, eq_iff r.id id, count_absent rest, h r)
    | inr e ↦ ground (arith, by_id r, count-eq-zero rest u (λ t f. h t (ground arith)))
  ]
