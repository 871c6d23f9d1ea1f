-- ===== src/PackagePlan/Guard/Locked.antt =====
-- What a locked plan that the guard accepts does (internal/action/package_plan_guard.go).
use witshield.Base.{
  String, ◌≡◌, ◌≢◌, refl, sym, ap, ◌∙◌, ◌⊎◌, inl, inr, Bool, true, Option, none, some, List, [],
  ◌∷◌, eq_iff, Bool-cases, Option-cases, arith, Listed, first, later,
}
use witshield.Base.Dict.{lookup}
use witshield.Helper.Capacity.{ok}
use witshield.PackagePlan.Plan.{
  PackageVersionTransition, Plan, transition_eq, Line, Text, parse_apt_version3_plan,
}
use witshield.PackagePlan.Guard.{
  PackagePlanGuardSpec, PackagePlanGuardResult, PackagePlanGuardMode, other, apply, rollback,
  first_error, check_apply, check_rollback, validate_locked_package_plan, decide,
  run_package_plan_guard,
}

-- A loop that finds no error has checked every entry.
first_error-each :
    {A : Type 0} (check : String → A → Option String) (entries : List (String × A))
    → first_error check entries ≡ none
    → (name : String) (a : A) → Listed (name, a) entries
    → check name a ≡ none
unfolding first_error
first_error-each check [] h name a l = elim l [ ]
first_error-each check ((n, b) ∷ rest) h name a first = ground arith
first_error-each check ((n, b) ∷ rest) h name a (later l) =
    first_error-each check rest (ground arith) name a l

-- An upgrade of an authorized package from the version that is installed.
pub record Upgrade (s : PackagePlanGuardSpec) (name : String) (t : PackageVersionTransition)
    : Type 0 where
  pub authorized : lookup name s.authorized ≡ some t.from
  pub installed : lookup name s.installed ≡ some t.from
  pub replaces : (t.from ≢ "-") × (t.to ≢ "-") × (t.from ≢ t.to)
  pub upwards : t.direction ≡ "<"

-- A recorded transition, taken back.
pub record Downgrade (s : PackagePlanGuardSpec) (name : String) (t : PackageVersionTransition)
    : Type 0 where
  pub recorded : lookup name s.transitions ≡ some t
  pub replaces : (t.from ≢ "-") × (t.to ≢ "-") × (t.from ≢ t.to)
  pub downwards : t.direction ≡ ">"

pub check_apply-Upgrade :
    (q : Text) (s : PackagePlanGuardSpec) (name : String) (t : PackageVersionTransition)
    → check_apply q s name t ≡ none
    → Upgrade s name t
unfolding check_apply
check_apply-Upgrade q s name t h = elim (Option-cases (lookup name s.authorized)) [
  | inl e ↦ absurd (ground arith)
  | inr (authorized, e1) ↦ elim (Option-cases (lookup name s.installed)) [
    | inl e ↦ absurd (ground arith)
    | inr (baseline, e2) ↦ record {
      authorized = ground (arith, eq_iff t.from authorized);
      installed = ground (arith, eq_iff t.from baseline);
      replaces = ground (arith, eq_iff t.from "-", eq_iff t.to "-", eq_iff t.from t.to);
      upwards = ground (arith, eq_iff t.direction "<");
    }
  ]
]

transition_eq-same : (t u : PackageVersionTransition) → transition_eq t u ≡ true → t ≡ u
unfolding transition_eq
transition_eq-same t u h =
    ground (arith, eq_iff t.from u.from, eq_iff t.to u.to, eq_iff t.direction u.direction)

pub check_rollback-Downgrade :
    (q : Text) (s : PackagePlanGuardSpec) (name : String) (t : PackageVersionTransition)
    → check_rollback q s name t ≡ none
    → Downgrade s name t
unfolding check_rollback
check_rollback-Downgrade q s name t h = elim (Option-cases (lookup name s.transitions)) [
  | inl e ↦ absurd (ground arith)
  | inr (expected, e1) ↦ elim (Bool-cases (transition_eq t expected)) [
    | inr e ↦ absurd (ground arith)
    | inl e2 ↦ record {
      recorded = e1 ∙ ap some (sym (transition_eq-same t expected e2));
      replaces = ground (arith, eq_iff t.from "-", eq_iff t.to "-", eq_iff t.from t.to);
      downwards = ground (arith, eq_iff t.direction ">");
    }
  ]
]

-- Each package of a locked plan that passes the check of an upgrade is an authorized one, upgraded
-- from the version that is authorized and installed, neither new nor removed.
locked_plan-Upgrade :
    (q : Text) (s : PackagePlanGuardSpec) (plan : Plan)
    → s.mode ≡ apply
    → validate_locked_package_plan q s plan ≡ none
    → (name : String) (t : PackageVersionTransition) → Listed (name, t) plan
    → Upgrade s name t
unfolding validate_locked_package_plan
locked_plan-Upgrade q s plan m h name t l =
    check_apply-Upgrade q s name t (first_error-each (check_apply q s) plan (ground arith) name t l)

-- Each package of a locked plan that passes the check of a rollback is one that was recorded, with
-- the very versions that were recorded, downwards, neither new nor removed.
locked_plan-Downgrade :
    (q : Text) (s : PackagePlanGuardSpec) (plan : Plan)
    → s.mode ≡ rollback
    → validate_locked_package_plan q s plan ≡ none
    → (name : String) (t : PackageVersionTransition) → Listed (name, t) plan
    → Downgrade s name t
unfolding validate_locked_package_plan
locked_plan-Downgrade q s plan m h name t l =
    check_rollback-Downgrade q s name t
      (first_error-each (check_rollback q s) plan (ground arith) name t l)

-- What a transaction that goes on has.
pub record Admitted (t : Text) (s : PackagePlanGuardSpec) (input : List Line)
    (written : Option PackagePlanGuardResult) (plan : Plan) : Type 0 where
  pub parsed : parse_apt_version3_plan t input ≡ some plan
  pub recorded : written ≡ some (record { version = 1; allowed = true; plan = plan; reason = "" })
  pub checked : validate_locked_package_plan t s plan ≡ none

admitted_plan :
    (t : Text) (s : PackagePlanGuardSpec) (write_ok : Bool) (input : List Line)
    → (run_package_plan_guard t (ok s) write_ok input).1 ≡ none
    → (plan : Plan) × Admitted t s input (run_package_plan_guard t (ok s) write_ok input).0 plan
unfolding run_package_plan_guard decide
admitted_plan t s write_ok input h = elim (Option-cases (parse_apt_version3_plan t input)) [
  | inl e ↦ absurd (ground arith)
  | inr (plan, e) ↦ (plan, record { parsed = e; recorded = ground arith; checked = ground arith })
]

-- Where the guard ends without an error, so that APT goes on, the input is a plan, the plan is recorded
-- as allowed, and each of its transitions is an authorized upgrade from the installed version, or takes
-- back one that was recorded, by the mode of the specification.
pub guard_admits :
    (t : Text) (s : PackagePlanGuardSpec) (write_ok : Bool) (input : List Line)
    → (run_package_plan_guard t (ok s) write_ok input).1 ≡ none
    → (plan : Plan) × Admitted t s input (run_package_plan_guard t (ok s) write_ok input).0 plan
      × ((name : String) (u : PackageVersionTransition)
          → Listed (name, u) plan
          → ((s.mode ≡ apply) × Upgrade s name u) ⊎ ((s.mode ≡ rollback) × Downgrade s name u))
guard_admits t s write_ok input h =
    let (plan, a) = admitted_plan t s write_ok input h in
    (plan, a, by_mode plan a.checked s.mode refl)
  where
    by_mode :
        (plan : Plan)
        → validate_locked_package_plan t s plan ≡ none
        → (m : PackagePlanGuardMode) → s.mode ≡ m
        → (name : String) (u : PackageVersionTransition) → Listed (name, u) plan
        → ((s.mode ≡ apply) × Upgrade s name u) ⊎ ((s.mode ≡ rollback) × Downgrade s name u)
    by_mode plan c apply e name u l = inl (e, locked_plan-Upgrade t s plan e c name u l)
    by_mode plan c rollback e name u l = inr (e, locked_plan-Downgrade t s plan e c name u l)
    by_mode plan c (other m) e name u l =
        absurd (unfold validate_locked_package_plan in ground arith)
