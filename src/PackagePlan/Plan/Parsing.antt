-- ===== src/PackagePlan/Plan/Parsing.antt =====
-- What a plan that is parsed holds (internal/action/package_plan_guard.go).
use mathlib.Core.Path.{subst}
use witshield.Base.{
  ◌≤◌, String, ◌≡◌, ◌≢◌, refl, ap, ◌∙◌, ◌⊎◌, inl, inr, true, some, List, [], ◌∷◌, All, length,
  str_eq, if◌then◌else◌, eq_iff, Bool-cases, Option-cases, arith,
}
use witshield.Base.Dict.{insert}
use witshield.PackagePlan.Names.{
  is_architecture, is_version, package_key, is_canonical_package, package_key-canonical,
}
use witshield.PackagePlan.Plan.{
  PackageVersionTransition, Plan, Plans, PackageAction, Side, present, absent_side, Line, line,
  broken, Text, parse_side, joint_architecture, parse_action, enter_action, enter_line, enter_lines,
  skip_configuration, finish_plan, parse_body, parse_apt_version3_plan,
}

-- A version, or the mark of an absent one.
abbrev pub SideVersion : String → Type 0
SideVersion v = (v ≡ "-") ⊎ (is_version v ≡ true)

pub record Sound (name : String) (t : PackageVersionTransition) : Type 0 where
  pub canonical : is_canonical_package name ≡ true
  pub from : SideVersion t.from
  pub to : SideVersion t.to

abbrev SideSound : String → String → Side → Type 0
SideSound version architecture side =
    ((side ≡ absent_side) × (version ≡ "-"))
    ⊎ ((multi : String) × (side ≡ present architecture multi)
        × (is_version version ≡ true)
        × (is_architecture architecture ≡ true))

parse_side-SideSound :
    (version architecture multi : String) {side : Side}
    → parse_side version architecture multi ≡ some side
    → SideSound version architecture side
unfolding parse_side
parse_side-SideSound version architecture multi h = elim (Bool-cases (str_eq version "-")) [
  | inl e ↦ inl (ground arith, (eq_iff version "-").0 e)
  | inr e ↦
      inr (if str_eq multi "none" then "no" else multi, ground arith, ground arith, ground arith)
]

side_version :
    {version architecture : String} {side : Side}
    → SideSound version architecture side
    → SideVersion version
side_version (inl (_, v)) = inl v
side_version (inr (_, _, v, _)) = inr v

joint-is_architecture :
    {v w a b : String} (old new : Side) {architecture : String}
    → SideSound v a old
    → SideSound w b new
    → joint_architecture old new ≡ some architecture
    → is_architecture architecture ≡ true
unfolding joint_architecture
joint-is_architecture old new (inl (e, _)) (inl (e', _)) h = absurd (ground arith)
joint-is_architecture old new (inl (e, _)) (inr (m, e', _, good)) h = ground arith
joint-is_architecture old new (inr (m, e, _, good)) (inl (e', _)) h = ground arith
joint-is_architecture old new (inr (m, e, _, good)) (inr (n, e', _, good')) h = ground arith

-- What the action of nine fields takes from them.
nine :
    (base from old_architecture old_multi direction to new_architecture new_multi what : String)
    {a : PackageAction}
    → parse_action (
        base ∷ from ∷ old_architecture ∷ old_multi ∷ direction ∷ to ∷ new_architecture ∷ new_multi
        ∷ what ∷ [])
      ≡ some a
    → Sound a.name a.transition
unfolding parse_action
nine base from old_architecture old_multi direction to new_architecture new_multi what {a} h =
    elim (Option-cases (parse_side from old_architecture old_multi)) [
      | inl e ↦ absurd (ground arith)
      | inr (old, e1) ↦ elim (Option-cases (parse_side to new_architecture new_multi)) [
        | inl e ↦ absurd (ground arith)
        | inr (new, e2) ↦ elim (Option-cases (joint_architecture old new)) [
          | inl e ↦ absurd (ground arith)
          | inr (architecture, e3) ↦
              let s1 = parse_side-SideSound from old_architecture old_multi e1 in
              let s2 = parse_side-SideSound to new_architecture new_multi e2 in
              let named : a.name ≡ package_key base architecture = ground arith in
              let from_same : from ≡ a.transition.from = ground arith in
              let to_same : to ≡ a.transition.to = ground arith in
              record {
                canonical =
                    ap is_canonical_package named
                    ∙ package_key-canonical base architecture (ground arith)
                        (joint-is_architecture old new s1 s2 e3);
                from = subst SideVersion from_same (side_version s1);
                to = subst SideVersion to_same (side_version s2);
              }
        ]
      ]
    ]

parse_action-Sound :
    (fields : List String) {a : PackageAction}
    → parse_action fields ≡ some a
    → Sound a.name a.transition
unfolding parse_action
parse_action-Sound [] h = absurd (ground arith)
parse_action-Sound (x1 ∷ []) h = absurd (ground arith)
parse_action-Sound (x1 ∷ x2 ∷ []) h = absurd (ground arith)
parse_action-Sound (x1 ∷ x2 ∷ x3 ∷ []) h = absurd (ground arith)
parse_action-Sound (x1 ∷ x2 ∷ x3 ∷ x4 ∷ []) h = absurd (ground arith)
parse_action-Sound (x1 ∷ x2 ∷ x3 ∷ x4 ∷ x5 ∷ []) h = absurd (ground arith)
parse_action-Sound (x1 ∷ x2 ∷ x3 ∷ x4 ∷ x5 ∷ x6 ∷ []) h = absurd (ground arith)
parse_action-Sound (x1 ∷ x2 ∷ x3 ∷ x4 ∷ x5 ∷ x6 ∷ x7 ∷ []) h = absurd (ground arith)
parse_action-Sound (x1 ∷ x2 ∷ x3 ∷ x4 ∷ x5 ∷ x6 ∷ x7 ∷ x8 ∷ []) h = absurd (ground arith)
parse_action-Sound (x1 ∷ x2 ∷ x3 ∷ x4 ∷ x5 ∷ x6 ∷ x7 ∷ x8 ∷ x9 ∷ []) h =
    nine x1 x2 x3 x4 x5 x6 x7 x8 x9 h
parse_action-Sound (x1 ∷ x2 ∷ x3 ∷ x4 ∷ x5 ∷ x6 ∷ x7 ∷ x8 ∷ x9 ∷ x10 ∷ rest) h =
    absurd (ground arith)

abbrev pub AllSound : Plan → Type 0
AllSound = All (λ x. Sound x.0 x.1)

AllSound-insert :
    (name : String) (t : PackageVersionTransition) (m : Plan)
    → Sound name t
    → AllSound m
    → AllSound (insert name t m)
unfolding insert
AllSound-insert name t [] s a = (s, tt)
AllSound-insert name t ((n, u) ∷ rest) s a =
    let rest_sound = AllSound-insert name t rest s a.1 in
    elim (Bool-cases (str_eq n name)) [
      | inl e ↦
          let same : (name, t) ∷ rest ≡ insert name t ((n, u) ∷ rest) = ground arith in
          subst AllSound same (s, a.1)
      | inr e ↦
          let same : (n, u) ∷ insert name t rest ≡ insert name t ((n, u) ∷ rest) = ground arith in
          subst AllSound same (a.0, rest_sound)
    ]

-- The plan that is being filled: sound, and of no more transitions than are supported.
pub record Filled (plan : Plan) : Type 0 where
  pub sound : AllSound plan
  pub few : length plan ≤ 512

module _ (t : Text) where
  enter_action-Filled :
      (a : PackageAction) (s : Plans) {s' : Plans}
      → Sound a.name a.transition
      → enter_action t a s ≡ some s'
      → Filled s.plan
      → Filled s'.plan
  unfolding enter_action
  enter_action-Filled a s {s'} sound h f = elim (Bool-cases (str_eq a.what "**CONFIGURE**")) [
    | inl e ↦ let same : s.plan ≡ s'.plan = ground arith in subst Filled same f
    | inr e ↦
        let same : insert a.name a.transition s.plan ≡ s'.plan = ground arith in
        record {
          sound = subst AllSound same (AllSound-insert a.name a.transition s.plan sound f.sound);
          few = ground arith;
        }
  ]

  enter_line-Filled :
      (l : Line) (s : Plans) {s' : Plans}
      → enter_line t l s ≡ some s'
      → Filled s.plan
      → Filled s'.plan
  unfolding enter_line
  enter_line-Filled broken s h f = absurd (ground arith)
  enter_line-Filled (line size text) s {s'} h f = elim (Bool-cases (str_eq text "")) [
    | inl e ↦ let same : s.plan ≡ s'.plan = ground arith in subst Filled same f
    | inr e ↦ elim (Option-cases (parse_action (t.fields text))) [
      | inl e' ↦ absurd (ground arith)
      | inr (a, e') ↦
          let entered : enter_action t a s ≡ some s' = ground arith in
          enter_action-Filled a s (parse_action-Sound (t.fields text) e') entered f
    ]
  ]

  enter_lines-Filled :
      (ls : List Line) (s : Plans) {s' : Plans}
      → enter_lines t ls s ≡ some s'
      → Filled s.plan
      → Filled s'.plan
  unfolding enter_lines
  enter_lines-Filled [] s {s'} h f =
      let same : s.plan ≡ s'.plan = ground arith in subst Filled same f
  enter_lines-Filled (l ∷ ls) s {s'} h f = elim (Option-cases (enter_line t l s)) [
    | inl e ↦ absurd (ground arith)
    | inr (s1, e) ↦
        let entered : enter_lines t ls s1 ≡ some s' = ground arith in
        enter_lines-Filled ls s1 entered (enter_line-Filled l s e f)
  ]

  finish_plan-same :
      (s : Plans) {plan : Plan} → finish_plan t s ≡ some plan → (s.plan ≡ plan) × (plan ≢ [])
  unfolding finish_plan
  finish_plan-same s {plan} h = go s.plan refl
    where
      go : (p : Plan) → s.plan ≡ p → (s.plan ≡ plan) × (plan ≢ [])
      go [] e = absurd (ground arith)
      go (x ∷ rest) e = (ground arith, (λ n. ground arith))

  parse_body-Filled :
      (ls : List Line) {plan : Plan} → parse_body t ls ≡ some plan → Filled plan × (plan ≢ [])
  unfolding parse_body
  parse_body-Filled ls {plan} h = elim (Option-cases (skip_configuration t ls)) [
    | inl e ↦ absurd (ground arith)
    | inr (actions, e1) ↦
        elim (Option-cases (enter_lines t actions (record { plan = []; configured = [] }))) [
          | inl e ↦ absurd (ground arith)
          | inr (s, e2) ↦
              let finished : finish_plan t s ≡ some plan = ground arith in
              let start : Filled [] = record { sound = tt; few = omega arith } in
              let (same, some_plan) = finish_plan-same s finished in
              (
                subst Filled same
                    (enter_lines-Filled actions (record { plan = []; configured = [] }) e2 start),
                some_plan,
              )
        ]
  ]

  -- A plan that is parsed is not empty and has at most 512 transitions; each has the canonical name
  -- of a package, and on each side a version or the mark of an absent one.
  pub parse_apt_version3_plan-Filled :
      (input : List Line) {plan : Plan}
      → parse_apt_version3_plan t input ≡ some plan
      → Filled plan × (plan ≢ [])
  unfolding parse_apt_version3_plan
  parse_apt_version3_plan-Filled [] h = absurd (ground arith)
  parse_apt_version3_plan-Filled (broken ∷ ls) h = absurd (ground arith)
  parse_apt_version3_plan-Filled (line size text ∷ ls) h = parse_body-Filled ls (ground arith)
