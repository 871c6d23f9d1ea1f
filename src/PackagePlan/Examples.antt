-- ===== src/PackagePlan/Examples.antt =====
-- Runs of the guard of package transactions at concrete inputs.
use witshield.Base.{
  String, ◌≡◌, refl, ap, ◌⊎◌, true, none, some, List, [], ◌∷◌, str_eq, if◌then◌else◌, Listed, arith,
}
use witshield.Base.Dict.{lookup, insert}
use witshield.Helper.Files.{has_suffix, regular, directory}
use witshield.Helper.Capacity.{ok}
use witshield.PackagePlan.Files.{
  Os, has_prefix, run_guard, validate_directory, read_spec, spec_of, read_result,
}
use witshield.PackagePlan.Files.Readback.{created, hook_admits, guard_result_read_back}
use witshield.PackagePlan.Names.{is_base_package, is_architecture, is_version, is_canonical_package}
use witshield.PackagePlan.Plan.{
  PackageVersionTransition, Plan, Line, line, Text, parse_apt_version3_plan, parse_action,
  parse_side, joint_architecture, enter_action,
}
use witshield.PackagePlan.Guard.{
  PackagePlanGuardSpec, PackagePlanGuardResult, apply, rollback, run_package_plan_guard,
  validate_locked_package_plan, validate_spec, authorized_entry,
}
use witshield.PackagePlan.Guard.Locked.{Admitted, Upgrade, Downgrade}

-- Every package line of the runs is the upgrade of curl.
abbrev text : Text
text = record {
  fields = λ _.
      "curl" ∷ "8.0" ∷ "amd64" ∷ "none" ∷ "<" ∷ "8.1" ∷ "amd64" ∷ "none" ∷ "/var/cache/curl.deb"
      ∷ [];
  contains = λ _ c. str_eq c "=";
  is_abs = λ _. true;
  quote = λ s. s;
}

abbrev input : List Line
input =
    line 10 "VERSION 3"
    ∷ line 9 "APT::A=1"
    ∷ line 0 ""
    ∷ line 60 "curl 8.0 amd64 none < 8.1 amd64 none /var/cache/curl.deb"
    ∷ []

abbrev upgrade : PackageVersionTransition
upgrade = record { from = "8.0"; to = "8.1"; direction = "<" }

abbrev spec : String → PackagePlanGuardSpec
spec version = record {
  version = 1;
  mode = apply;
  installed = ("curl:amd64", version) ∷ [];
  authorized = ("curl:amd64", version) ∷ [];
  transitions = [];
}

guard_opened : Unit {0}
unfolding lookup insert has_suffix parse_apt_version3_plan parse_action is_base_package
    is_architecture is_version is_canonical_package parse_side joint_architecture enter_action
    run_package_plan_guard validate_locked_package_plan
guard_opened = tt

admitted_run : run_package_plan_guard text (ok (spec "8.0")) true input ≡ (
  some (record { version = 1; allowed = true; plan = ("curl:amd64", upgrade) ∷ []; reason = "" }),
  none,
)
unfolding guard_opened
admitted_run = refl

-- Another process has upgraded the package in the meantime.
refused_run :
    (run_package_plan_guard text (ok (spec "7.9")) true input).1
    ≡ some "package curl:amd64 changed while waiting for the APT lock"
unfolding guard_opened
refused_run = refl

abbrev allowed : PackagePlanGuardResult
allowed = record { version = 1; allowed = true; plan = ("curl:amd64", upgrade) ∷ []; reason = "" }

abbrev planned : Plan
planned = ("curl:amd64", upgrade) ∷ []

abbrev os : Os
os = record {
  is_abs = λ s. has_prefix "/" s;
  clean = λ s. s;
  eval_symlinks = λ s. some s;
  rel = λ root target. if str_eq target "/plans/t1" then some "t1" else none;
  lstat = λ s.
      some (record { kind = directory; perm = 0o700; owner = some 0; links = some 2; size = 64 });
  open_spec = λ s. some (record {
    info = record { kind = regular; perm = 0o600; owner = some 0; links = some 1; size = 5 };
    content = "8.0";
  });
  decode_spec = λ content. some (spec content);
  encode_result = λ _. "result";
  decode_result = λ _. some allowed;
  euid = 0;
}

hook_opened : Unit {0}
unfolding guard_opened run_guard validate_directory read_spec has_prefix read_result validate_spec
    authorized_entry
hook_opened = tt

hook_run : run_guard os text "/plans/t1" "/plans" true input ≡ (some allowed, none)
unfolding hook_opened
hook_run = refl

-- A directory outside the base is refused.
escape_run :
    (run_guard os text "/tmp/t1" "/plans" true input).1
    ≡ some "package plan transaction escaped its private base directory"
unfolding hook_opened
escape_run = refl

hook_admits_example :
    (s : PackagePlanGuardSpec) × (spec_of os "/plans/t1" "/plans" ≡ ok s)
    × (plan : Plan) × Admitted text s input
        (run_guard os text "/plans/t1" "/plans" true input).0
        plan
    × ((name : String) (u : PackageVersionTransition)
        → Listed (name, u) plan
        → ((s.mode ≡ apply) × Upgrade s name u) ⊎ ((s.mode ≡ rollback) × Downgrade s name u))
hook_admits_example = hook_admits os text "/plans/t1" "/plans" true input (ap (λ x. x.1) hook_run)

guard_result_read_back_example : read_result os (some (created os "result")) ≡ ok allowed
guard_result_read_back_example =
    guard_result_read_back os text "/plans/t1" "/plans" true input allowed (ap (λ x. x.0) hook_run)
      refl (omega arith) (omega arith)
