-- ===== src/PackagePlan/Guard.antt =====
-- The guard itself of internal/action/package_plan_guard.go: the specification that it checks a locked
-- plan against, and the result that it leaves.
pub mod Locked
pub mod Readable
use Prim.Native.String.{◌++◌ as cat}
use witshield.Base.{
  ℕ, String, Bool, true, false, not, ◌&&◌, ◌||◌, Option, none, some, List, [], ◌∷◌, length, ltb,
  ◌==◌, str_eq, if◌then◌else◌,
}
use witshield.Base.Dict.{lookup}
use witshield.Helper.Capacity.{Outcome, ok, err}
use witshield.PackagePlan.Names.{is_version, is_canonical_package}
use witshield.PackagePlan.Plan.{
  PackageVersionTransition, Plan, transition_eq, Line, Text, parse_apt_version3_plan,
}

abbrev pub package_plan_guard_version : ℕ
package_plan_guard_version = 1

pub data PackagePlanGuardMode : Type 0 where
  apply : PackagePlanGuardMode
  rollback : PackagePlanGuardMode
  other : String → PackagePlanGuardMode

pub record PackagePlanGuardSpec : Type 0 where
  pub version : ℕ
  pub mode : PackagePlanGuardMode
  pub installed : List (String × String)
  pub authorized : List (String × String)
  pub transitions : Plan

pub record PackagePlanGuardResult : Type 0 where
  pub version : ℕ
  pub allowed : Bool
  pub plan : Plan
  pub reason : String

-- What a loop over a map finds first; the order of a map is that of its list.
unfoldable pub first_error {ℓ} :
    {A : Type ℓ} → (String → A → Option String) → List (String × A) → Option String
first_error check [] = none
first_error check ((name, a) ∷ rest) =
    let later_error = first_error check rest in
    elim (check name a) [ some e ↦ some e | none ↦ later_error ]

all_entries {ℓ} : {A : Type ℓ} → (String → A → Bool) → List (String × A) → Bool
all_entries check [] = true
all_entries check ((name, a) ∷ rest) = check name a && all_entries check rest

unfoldable pub valid_package_version_map : List (String × String) → Bool
unfolding all_entries
valid_package_version_map versions =
    not (length versions == 0 || ltb 20000 (length versions))
    && all_entries (λ name version. is_canonical_package name && is_version version) versions

-- One entry of the loop of `validPackageTransitions`.
unfoldable pub valid_transition : String → PackageVersionTransition → Bool
valid_transition name t = not (
    not (is_canonical_package name)
    || not (is_version t.from)
    || not (is_version t.to)
    || str_eq t.from t.to
    || (not (str_eq t.direction "<") && not (str_eq t.direction ">")))

unfoldable pub valid_package_transitions : Plan → Bool
unfolding all_entries
valid_package_transitions = all_entries valid_transition

unfoldable pub authorized_entry : List (String × String) → String → String → Bool
authorized_entry installed name version = elim (lookup name installed) [
  | none ↦ str_eq "" version
  | some v ↦ str_eq v version
]

unfoldable pub validate_spec : PackagePlanGuardSpec → Option String
unfolding valid_package_version_map valid_package_transitions authorized_entry all_entries
validate_spec s =
    if not (s.version == package_plan_guard_version)
    then some "unsupported package plan guard specification version"
    else elim s.mode [
      | apply ↦
          if not (valid_package_version_map s.installed)
            || not (valid_package_version_map s.authorized)
            || ltb 64 (length s.authorized)
            || not (length s.transitions == 0)
          then some "invalid apply package plan guard baseline"
          else if not (all_entries (authorized_entry s.installed) s.authorized)
          then some "authorized package set does not match the installed baseline"
          else none
      | rollback ↦
          if not (length s.installed == 0)
            || not (length s.authorized == 0)
            || length s.transitions == 0
            || ltb 512 (length s.transitions)
            || not (valid_package_transitions s.transitions)
          then some "invalid rollback package plan guard transitions"
          else none
      | other _ ↦ some "invalid package plan guard mode"
    ]

-- One transition of a locked plan, where packages are upgraded.
unfoldable pub check_apply :
    Text → PackagePlanGuardSpec → String → PackageVersionTransition → Option String
check_apply q s name t = elim (lookup name s.authorized) [
  | none ↦
      some (cat "package " (cat (q.quote name) " is outside the explicitly authorized package set"))
  | some authorized ↦ elim (lookup name s.installed) [
    | none ↦ some (
        cat "package " (
          cat (q.quote name)
            " would be newly installed or removed; refusing a non-reversible upgrade"))
    | some baseline ↦
        if str_eq t.from "-" || str_eq t.to "-"
        then some (
            cat "package " (
              cat (q.quote name)
                " would be newly installed or removed; refusing a non-reversible upgrade"))
        else if not (str_eq t.from baseline) || not (str_eq t.from authorized)
        then some (cat "package " (cat (q.quote name) " changed while waiting for the APT lock"))
        else if str_eq t.from t.to || not (str_eq t.direction "<")
        then some (cat "package " (cat (q.quote name) " would not be upgraded monotonically"))
        else none
  ]
]

-- One transition of a locked plan, where packages are rolled back.
unfoldable pub check_rollback :
    Text → PackagePlanGuardSpec → String → PackageVersionTransition → Option String
unfolding transition_eq
check_rollback q s name t = elim (lookup name s.transitions) [
  | none ↦ some (cat "rollback would mutate unrecorded package " (q.quote name))
  | some expected ↦
      if not (transition_eq t expected)
      then some
          (cat "package " (cat (q.quote name) " changed while waiting for the APT rollback lock"))
      else if str_eq t.from "-"
          || str_eq t.to "-"
          || str_eq t.from t.to
          || not (str_eq t.direction ">")
      then some (cat "rollback would install or remove package " (q.quote name))
      else none
]

unfoldable pub validate_locked_package_plan : Text → PackagePlanGuardSpec → Plan → Option String
unfolding first_error check_apply check_rollback
validate_locked_package_plan q s plan = elim s.mode [
  | apply ↦ first_error (check_apply q s) plan
  | rollback ↦ first_error (check_rollback q s) plan
  | other _ ↦ some "invalid package plan guard mode"
]

abbrev pub denial : String → PackagePlanGuardResult
denial reason = record {
  version = package_plan_guard_version;
  allowed = false;
  plan = [];
  reason = reason;
}

-- The decision of `RunPackagePlanGuard`, from the specification that was read and the input.
unfoldable pub decide : Text → PackagePlanGuardSpec → List Line → PackagePlanGuardResult
decide t s input = elim (parse_apt_version3_plan t input) [
  | none ↦ denial "APT supplied an invalid or incomplete locked transaction plan"
  | some plan ↦ elim (validate_locked_package_plan t s plan) [
    | some reason ↦ denial reason
    | none ↦ record {
      version = package_plan_guard_version;
      allowed = true;
      plan = plan;
      reason = "";
    }
  ]
]

-- `RunPackagePlanGuard` from the specification that was read: the result that is written, if it comes to
-- that, and the error. `write_ok` says whether the result is written.
unfoldable pub run_package_plan_guard :
    Text
    → Outcome PackagePlanGuardSpec
    → Bool
    → List Line
    → Option PackagePlanGuardResult × Option String
unfolding decide
run_package_plan_guard t spec write_ok input = elim spec [
  | err e ↦ (none, some e)
  | ok s ↦
      let result = decide t s input in
      if not write_ok
      then (none, some "persist locked APT plan")
      else if not result.allowed
      then (some result, some result.reason)
      else (some result, none)
]

-- The last check of `readPackagePlanGuardResult` on a decoded result.
unfoldable pub is_result : PackagePlanGuardResult → Bool
is_result r = not (
    not (r.version == package_plan_guard_version)
    || (ltb 0 (length r.plan) && not (valid_package_transitions r.plan))
    || (r.allowed && length r.plan == 0)
    || (not r.allowed && str_eq r.reason ""))
