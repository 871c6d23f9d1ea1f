-- ===== src/PackagePlan/Files/Readback.antt =====
-- The way of a result from the hook to the helper, and of a specification from the helper to the hook
-- (internal/action/package_plan_guard.go).
use mathlib.Core.Path.{subst}
use witshield.Base.{
  ◌≤◌, ◌<◌, ◌⊎◌, String, len, ◌≡◌, refl, sym, ap, ◌∙◌, Bool, true, none, some, List, arith, Listed,
}
use witshield.Helper.Files.{regular}
use witshield.Helper.Capacity.{Outcome, ok, err}
use witshield.PackagePlan.Plan.{PackageVersionTransition, Plan, Line, Text}
use witshield.PackagePlan.Guard.{
  PackagePlanGuardSpec, PackagePlanGuardResult, apply, rollback, run_package_plan_guard,
}
use witshield.PackagePlan.Guard.Locked.{Admitted, Upgrade, Downgrade, guard_admits}
use witshield.PackagePlan.Guard.Readable.{guard-is_result}
use witshield.PackagePlan.Files.{
  max_package_plan_bytes, StoredFile, Os, is_private_file, spec_of, run_guard, read_result,
}

-- The file that the hook creates, exclusively and for its user alone.
abbrev pub created : Os → String → StoredFile
created os content = record {
  info = record {
    kind = regular;
    perm = 0o600;
    owner = some os.euid;
    links = some 1;
    size = len content;
  };
  content = content;
}

module _ (os : Os) (t : Text) (transaction_dir allowed_base : String) (write_ok : Bool)
    (input : List Line) where
  created-is_private :
      (content : String)
      → 0 < len content
      → len content ≤ max_package_plan_bytes
      → is_private_file os.euid (created os content).info ≡ true
  unfolding is_private_file
  created-is_private content some_bytes small = ground arith

  -- Whatever APT sends and whatever the specification, the result that the hook writes is what the helper
  -- reads: a refusal with its reason, or the plan that was let through. The codec reads back what it
  -- wrote, which is not empty and at most 4 MiB.
  pub guard_result_read_back :
      (r : PackagePlanGuardResult)
      → (run_guard os t transaction_dir allowed_base write_ok input).0 ≡ some r
      → os.decode_result (os.encode_result r) ≡ some r
      → 0 < len (os.encode_result r)
      → len (os.encode_result r) ≤ max_package_plan_bytes
      → read_result os (some (created os (os.encode_result r))) ≡ ok r
  unfolding read_result run_guard
  guard_result_read_back r h decodes some_bytes small =
      let passes = guard-is_result t (spec_of os transaction_dir allowed_base) write_ok input r h in
      let private = created-is_private (os.encode_result r) some_bytes small in
      ground (arith, passes, private)

  run_guard_spec :
      (run_guard os t transaction_dir allowed_base write_ok input).1 ≡ none
      → (s : PackagePlanGuardSpec) × (spec_of os transaction_dir allowed_base ≡ ok s)
  unfolding run_guard run_package_plan_guard
  run_guard_spec h = go (spec_of os transaction_dir allowed_base) refl
    where
      go :
          (o : Outcome PackagePlanGuardSpec)
          → spec_of os transaction_dir allowed_base ≡ o
          → (s : PackagePlanGuardSpec) × (spec_of os transaction_dir allowed_base ≡ ok s)
      go (ok s) e = (s, e)
      go (err m) e = absurd (ground arith)

  guard_same :
      (s : PackagePlanGuardSpec)
      → spec_of os transaction_dir allowed_base ≡ ok s
      → run_guard os t transaction_dir allowed_base write_ok input
        ≡ run_package_plan_guard t (ok s) write_ok input
  unfolding run_guard
  guard_same s e = ap (λ x. run_package_plan_guard t x write_ok input) e

  -- Where the hook ends without an error, so that APT goes on, it has read a valid specification from the
  -- private directory that APT names, its input is a plan that is recorded as allowed, and each transition
  -- of the plan is, by the mode of the specification, an upgrade of an authorized package from the version
  -- that is authorized and installed, or takes back one that was recorded; none installs or removes.
  pub hook_admits :
      (run_guard os t transaction_dir allowed_base write_ok input).1 ≡ none
      → (s : PackagePlanGuardSpec) × (spec_of os transaction_dir allowed_base ≡ ok s)
        × (plan : Plan) × Admitted t s input
            (run_guard os t transaction_dir allowed_base write_ok input).0
            plan
        × ((name : String) (u : PackageVersionTransition)
            → Listed (name, u) plan
            → ((s.mode ≡ apply) × Upgrade s name u) ⊎ ((s.mode ≡ rollback) × Downgrade s name u))
  hook_admits h =
      let (s, e) = run_guard_spec h in
      let same = guard_same s e in
      let (plan, admitted, each) = guard_admits t s write_ok input (sym (ap (λ x. x.1) same) ∙ h) in
      (s, e, plan, subst (λ x. Admitted t s input x.0 plan) (sym same) admitted, each)
