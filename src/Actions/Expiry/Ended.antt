-- ===== src/Actions/Expiry/Ended.antt =====
-- The rounds of the expiry one after the other: what they end, and what they leave alone
-- (internal/store/reports_commands.go).
use mathlib.Core.Path.{subst}
use witshield.Base.{
  Option-cases, ℕ, String, true, false, ◌≡◌, ◌≢◌, refl, sym, ap, ◌∙◌, inl, inr, List, [], ◌∷◌,
  str_eq, eq_iff, Bool-cases, arith,
}
use witshield.Actions.Tables.{CommandRow, Tables}
use witshield.Actions.Statement.{Tx, continue, done, pure, ◌>>=◌, is_some, is_none}
use witshield.Actions.Policy.{dropped, is_open_command}
use witshield.Actions.Gate.{contains}
use witshield.Actions.Expiry.{for_each, lost_command}
use witshield.Actions.Expiry.Select.{ids}
use witshield.Actions.Expiry.Aged.{
  Aged, Aged-refl, Aged-trans, Pairs, Pairs-trans, Pairs-same, Pairs-update,
}
use witshield.Actions.Expiry.Rounds.{Round}

-- The row has aged, and is completed where its id is listed.
abbrev pub Ended : List String → CommandRow → CommandRow → Type 0
Ended names c d = Aged c d × (contains c.id names ≡ true → is_some d.completed_at ≡ true)

Ended-none : (c : CommandRow) → Ended [] c c
unfolding contains
Ended-none c = (Aged-refl c, λ e. cc)

Ended-add :
    (name : String) (names : List String) (c d e : CommandRow)
    → Ended (name ∷ []) c d
    → Ended names d e
    → Ended (name ∷ names) c e
unfolding contains
Ended-add name names c d e (a, h) (b, k) = (
  Aged-trans a b,
  λ f. elim (Bool-cases (str_eq name c.id)) [
    | inl m ↦ b.stays (h (ground arith))
    | inr m ↦ k (ap (λ x. contains x names) a.id ∙ ground arith)
  ],
)

Ended-hit :
    (c : CommandRow) (g : CommandRow → CommandRow) (d : CommandRow)
    → Aged d (g d) × (is_some (g d).completed_at ≡ true)
    → Ended (c.id ∷ []) d (g d)
Ended-hit c g d (a, e) = (a, λ _. e)

Ended-miss : (c d : CommandRow) → is_open_command c.id d ≡ false → Ended (c.id ∷ []) d d
unfolding contains is_open_command
Ended-miss c d h = (Aged-refl d, λ e. ground (arith, eq_iff c.id d.id, eq_iff d.id c.id))

-- All rounds end, and end the commands that they are for.
pub for_each-Ended :
    (f : CommandRow → Tx (Unit {0})) (g : CommandRow → CommandRow) (cs : List CommandRow)
    (s : Tables)
    → Round f g
    → ((c : CommandRow) → Aged c (g c) × (is_some (g c).completed_at ≡ true))
    → (t : Tables) × (for_each f cs s ≡ done tt t) × Pairs (Ended (ids cs)) s.commands t.commands
unfolding for_each ◌>>=◌ pure
for_each-Ended f g [] s round closes = (s, refl, Pairs-same _ s.commands Ended-none)
for_each-Ended f g (c ∷ cs) s round closes =
    let (u, first, closed) = round c s in
    let (t, later, pairs) = for_each-Ended f g cs u round closes in
    let hit : Pairs (Ended (c.id ∷ [])) s.commands u.commands =
      subst (Pairs (Ended (c.id ∷ [])) s.commands) (sym closed) (
        Pairs-update _ (is_open_command c.id) g s.commands (λ d _. Ended-hit c g d (closes d))
          (λ d h. Ended-miss c d h)) in
    (
      t,
      ap (λ o. continue o (λ _. for_each f cs)) first ∙ later,
      Pairs-trans _ _ _ s.commands u.commands t.commands (Ended-add c.id (ids cs)) hit pairs,
    )

pub is_open-back :
    (c d : CommandRow) → Aged c d → is_none d.completed_at ≡ true → is_none c.completed_at ≡ true
is_open-back c d a h = elim (Option-cases c.completed_at) [
  | inl e ↦ ap is_none e
  | inr (t, e) ↦ elim (Option-cases d.completed_at) [
    | inl f ↦ absurd (no_none (sym (a.stays (ap is_some e)) ∙ ap is_some f))
    | inr (u, f) ↦ absurd (no_none (sym h ∙ ap is_none f))
  ]
]
  where
    no_none : true ≢ false
    no_none e = cc

pub dropped-Aged :
    (message : String) (now : ℕ) (c : CommandRow)
    → Aged c (dropped message now c) × (is_some (dropped message now c).completed_at ≡ true)
unfolding dropped
dropped-Aged message now c = (
  record {
    id = refl;
    device_id = refl;
    type = refl;
    created_at = refl;
    claimed_at = refl;
    started_at = refl;
    stays = λ _. refl;
  },
  refl,
)

pub lost_command-Aged :
    (now : ℕ) (c : CommandRow)
    → Aged c (lost_command now c) × (is_some (lost_command now c).completed_at ≡ true)
unfolding lost_command
lost_command-Aged now c = (
  record {
    id = refl;
    device_id = refl;
    type = refl;
    created_at = refl;
    claimed_at = refl;
    started_at = refl;
    stays = λ _. refl;
  },
  refl,
)
