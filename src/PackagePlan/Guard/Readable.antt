-- ===== src/PackagePlan/Guard/Readable.antt =====
-- What the guard leaves for the helper (internal/action/package_plan_guard.go).
use Prim.Native.String.{◌++◌ as cat}
use Prim.Native.String.append
use mathlib.Core.Path.{subst}
use witshield.Base.{
  String, ◌≡◌, ◌≢◌, refl, sym, ◌∙◌, ◌⊎◌, inl, inr, Bool, true, false, Option, none, some, List, [],
  ◌∷◌, str_eq, eq_iff, Option-cases, arith,
}
use witshield.Helper.Capacity.{Outcome, ok, err}
use witshield.PackagePlan.Names.{is_version}
use witshield.PackagePlan.Plan.{PackageVersionTransition, Plan, Line, Text, parse_apt_version3_plan}
use witshield.PackagePlan.Plan.Parsing.{
  SideVersion, Sound, AllSound, parse_apt_version3_plan-Filled,
}
use witshield.PackagePlan.Guard.{
  PackagePlanGuardSpec, PackagePlanGuardMode, PackagePlanGuardResult, apply, rollback, other,
  all_entries, first_error, check_apply, check_rollback, valid_transition,
  valid_package_transitions, validate_locked_package_plan, denial, decide, run_package_plan_guard,
  is_result,
}
use witshield.PackagePlan.Guard.Locked.{check_apply-Upgrade, check_rollback-Downgrade}

side-present : {v : String} → SideVersion v → v ≢ "-" → is_version v ≡ true
side-present (inl e) n = absurd (n e)
side-present (inr e) n = e

accepted-valid :
    (name : String) (t : PackageVersionTransition)
    → Sound name t
    → (t.from ≢ "-") × (t.to ≢ "-") × (t.from ≢ t.to)
    → (t.direction ≡ "<") ⊎ (t.direction ≡ ">")
    → valid_transition name t ≡ true
unfolding valid_transition
accepted-valid name t s (f, g, n) d =
    let c = s.canonical in
    let from_ok = side-present s.from f in
    let to_ok = side-present s.to g in
    ground (arith, eq_iff t.from t.to, eq_iff t.direction "<", eq_iff t.direction ">")

-- A check that rejects with reasons only, and lets only valid transitions pass.
record Strict (check : String → PackageVersionTransition → Option String) : Type 0 where
  passes :
      (name : String) (t : PackageVersionTransition)
      → Sound name t
      → check name t ≡ none
      → valid_transition name t ≡ true
  speaks :
      (name : String) (t : PackageVersionTransition) {reason : String}
      → check name t ≡ some reason
      → reason ≢ ""

first_error-valid :
    (check : String → PackageVersionTransition → Option String)
    → Strict check
    → (plan : Plan) → AllSound plan
    → first_error check plan ≡ none
    → valid_package_transitions plan ≡ true
unfolding first_error valid_package_transitions all_entries
first_error-valid check k [] a h = refl
first_error-valid check k ((name, t) ∷ rest) a h =
    let here : check name t ≡ none = ground arith in
    let head_valid = k.passes name t a.0 here in
    let rest_clear : first_error check rest ≡ none = ground arith in
    let rest_valid = first_error-valid check k rest a.1 rest_clear in ground arith

first_error-speaks :
    (check : String → PackageVersionTransition → Option String)
    → Strict check
    → (plan : Plan) {reason : String} → first_error check plan ≡ some reason
    → reason ≢ ""
unfolding first_error
first_error-speaks check k [] h = absurd (ground arith)
first_error-speaks check k ((name, t) ∷ rest) {reason} h = elim (Option-cases (check name t)) [
  | inl e ↦
      let after : first_error check rest ≡ some reason = ground arith in
      first_error-speaks check k rest after
  | inr (r, e) ↦ let same : check name t ≡ some reason = ground arith in k.speaks name t same
]

-- A text with something behind it is not empty.
cat-nonempty : (s t : String) → t ≢ "" → cat s t ≢ ""
cat-nonempty String.[] t h e = h (sym (append.nil t) ∙ e)
cat-nonempty (String.◌∷◌ c s) t h e = cc (append.cons c s t)

text_after : (s t : String) → str_eq t "" ≡ false → cat s t ≢ ""
text_after s t h = cat-nonempty s t (λ e. ground (arith, eq_iff t ""))

text_before : (s t : String) → str_eq s "" ≡ false → cat s t ≢ ""
text_before String.[] t h e = ground (arith, eq_iff "" "")
text_before (String.◌∷◌ c s) t h e = cc (append.cons c s t)

check_apply-Strict : (q : Text) (s : PackagePlanGuardSpec) → Strict (check_apply q s)
unfolding check_apply
check_apply-Strict q s = record {
  passes = λ name t sound h.
      let u = check_apply-Upgrade q s name t h in
      accepted-valid name t sound u.replaces (inl u.upwards);
  speaks = λ name t h e. ground (
    arith,
    text_before "package " (cat (q.quote name) " is outside the explicitly authorized package set")
        refl,
    text_before "package "
        (cat (q.quote name)
          " would be newly installed or removed; refusing a non-reversible upgrade")
        refl,
    text_before "package " (cat (q.quote name) " changed while waiting for the APT lock") refl,
    text_before "package " (cat (q.quote name) " would not be upgraded monotonically") refl,
  );
}

check_rollback-Strict : (q : Text) (s : PackagePlanGuardSpec) → Strict (check_rollback q s)
unfolding check_rollback
check_rollback-Strict q s = record {
  passes = λ name t sound h.
      let d = check_rollback-Downgrade q s name t h in
      accepted-valid name t sound d.replaces (inr d.downwards);
  speaks = λ name t h e. ground (
    arith,
    text_before "rollback would mutate unrecorded package " (q.quote name) refl,
    text_before "package " (cat (q.quote name) " changed while waiting for the APT rollback lock")
        refl,
    text_before "rollback would install or remove package " (q.quote name) refl,
  );
}

-- What the check of a plan that was parsed gives: the plan's transitions are valid, or a reason.
abbrev Checked : Plan → Option String → Type 0
Checked plan o =
    ((o ≡ none) × (valid_package_transitions plan ≡ true))
    ⊎ ((reason : String) × (o ≡ some reason) × (reason ≢ ""))

Checked-by :
    (check : String → PackageVersionTransition → Option String)
    → Strict check
    → (plan : Plan) → AllSound plan
    → Checked plan (first_error check plan)
Checked-by check k plan a = elim (Option-cases (first_error check plan)) [
  | inl e ↦ inl (e, first_error-valid check k plan a e)
  | inr (reason, e) ↦ inr (reason, e, first_error-speaks check k plan e)
]

validate_locked-Checked :
    (q : Text) (s : PackagePlanGuardSpec) (plan : Plan)
    → AllSound plan
    → Checked plan (validate_locked_package_plan q s plan)
unfolding validate_locked_package_plan
validate_locked-Checked q s plan a = go s.mode refl
  where
    go :
        (m : PackagePlanGuardMode)
        → s.mode ≡ m
        → Checked plan (validate_locked_package_plan q s plan)
    go apply e =
        let same : first_error (check_apply q s) plan ≡ validate_locked_package_plan q s plan =
          ground arith in
        subst (Checked plan) same (Checked-by (check_apply q s) (check_apply-Strict q s) plan a)
    go rollback e =
        let same : first_error (check_rollback q s) plan ≡ validate_locked_package_plan q s plan =
          ground arith in
        subst (Checked plan) same
          (Checked-by (check_rollback q s) (check_rollback-Strict q s) plan a)
    go (other m) e = inr (
      "invalid package plan guard mode",
      ground arith,
      λ x. ground (arith, eq_iff "invalid package plan guard mode" ""),
    )

denial-is_result : (reason : String) → reason ≢ "" → is_result (denial reason) ≡ true
unfolding is_result
denial-is_result reason h = ground (arith, eq_iff reason "")

allowed-is_result :
    (plan : Plan)
    → plan ≢ []
    → valid_package_transitions plan ≡ true
    → is_result (record { version = 1; allowed = true; plan = plan; reason = "" }) ≡ true
unfolding is_result
allowed-is_result [] n v = absurd (n refl)
allowed-is_result (x ∷ rest) n v = ground arith

decide-is_result :
    (t : Text) (s : PackagePlanGuardSpec) (input : List Line) → is_result (decide t s input) ≡ true
unfolding decide
decide-is_result t s input = elim (Option-cases (parse_apt_version3_plan t input)) [
  | inl e ↦
      let malformed : String = "APT supplied an invalid or incomplete locked transaction plan" in
      let same : denial malformed ≡ decide t s input = ground arith in
      subst (λ r. is_result r ≡ true) same
        (denial-is_result malformed (λ x. ground (arith, eq_iff malformed "")))
  | inr (plan, e) ↦
      let (filled, some_plan) = parse_apt_version3_plan-Filled t input e in
      elim (validate_locked-Checked t s plan filled.sound) [
        | inl (clear, valid) ↦
            let same : record { version = 1; allowed = true; plan = plan; reason = "" }
                ≡ decide t s input =
              ground arith in
            subst (λ r. is_result r ≡ true) same (allowed-is_result plan some_plan valid)
        | inr (reason, rejected, speaks) ↦
            let same : denial reason ≡ decide t s input = ground arith in
            subst (λ r. is_result r ≡ true) same (denial-is_result reason speaks)
      ]
]

-- The result that is written passes the helper's check of it.
pub guard-is_result :
    (t : Text) (spec : Outcome PackagePlanGuardSpec) (write_ok : Bool) (input : List Line)
    (r : PackagePlanGuardResult)
    → (run_package_plan_guard t spec write_ok input).0 ≡ some r
    → is_result r ≡ true
unfolding run_package_plan_guard
guard-is_result t (err e) write_ok input r h = absurd (ground arith)
guard-is_result t (ok s) write_ok input r h =
    let same : decide t s input ≡ r = ground arith in
    subst (λ x. is_result x ≡ true) same (decide-is_result t s input)
