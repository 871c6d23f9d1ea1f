-- ===== src/Engine/Lifecycle/Success.antt =====
-- The receipt of an execution that succeeds (`Engine.Run` of internal/action/engine.go): its four steps
-- are there, all successful and with a result, and it names the rollback state that it returns.
use witshield.Base.{
  String, ◌≡◌, refl, ◌∙◌, Bool, true, false, Option, none, some, [], ◌∷◌, ◌++◌, arith,
}
use witshield.Engine.Types.{
  Operation, precheck, preview, apply, verify, execute, Playbook, Library, Method, Result,
  AuditStep, Receipt,
}
use witshield.Engine.Seal.{digest_bytes}
use witshield.Engine.Lifecycle.{
  Run, run_result, run_apply, auto_rollback, recover_apply_failure, run_verify, run_change,
  run_execute, dispatch, set_success, succeeded, keep_state, apply_error,
}

abbrev has_result : Option Result → Bool
has_result none = false
has_result (some r) = true

-- The step is of the operation, and a success with a result.
pub record IsDone (operation : Operation) (x : AuditStep) : Type 0 where
  pub ran : x.operation ≡ operation
  pub success : x.success ≡ true
  pub result : (r : Result) × (x.result ≡ some r)

-- The receipt is of the same request.
pub record SameRequest (r t : Receipt) : Type 0 where
  pub action_id : t.action_id ≡ r.action_id
  pub type : t.type ≡ r.type
  pub operation : t.operation ≡ r.operation
  pub parameters_digest : t.parameters_digest ≡ r.parameters_digest

-- Precheck, preview, apply and verify are there, all done, and the receipt names its rollback state.
pub record Succeeds (l : Library) (r : Receipt) : Type 0 where
  pub first : AuditStep
  pub second : AuditStep
  pub third : AuditStep
  pub fourth : AuditStep
  pub steps : r.steps ≡ first ∷ second ∷ third ∷ fourth ∷ []
  pub checks : IsDone precheck first
  pub previews : IsDone preview second
  pub applies : IsDone apply third
  pub verifies : IsDone verify fourth
  pub state : r.rollback_state_digest ≡ digest_bytes l r.state

result_of :
    {A : Type 0} (err : Option String) (a : A)
    → succeeded err ≡ true
    → (x : A) × (elim err [ none ↦ some a | some _ ↦ none ] ≡ some x)
unfolding succeeded
result_of none a h = (a, refl)
result_of (some e) a h = absurd (cc)

module _ {H : Type 0} (l : Library) where
  -- One more step, which is done, for the same request; the rollback state is left alone.
  record Does (operation : Operation) (s t : Run H) : Type 0 where
    step : AuditStep
    added : t.receipt.steps ≡ s.receipt.steps ++ (step ∷ [])
    done : IsDone operation step
    same : SameRequest s.receipt t.receipt

  record SameState (s t : Run H) : Type 0 where
    state : t.receipt.state ≡ s.receipt.state
    digest : t.receipt.rollback_state_digest ≡ s.receipt.rollback_state_digest

  run_result-SameState :
      (operation : Operation) (f : Method H Result) (s : Run H)
      → SameState s (run_result l operation f s).0
  unfolding run_result
  run_result-SameState operation f s = record { state = refl; digest = refl }

  run_result-Does :
      (operation : Operation) (f : Method H Result) (s : Run H)
      → (run_result l operation f s).1 ≡ true
      → Does operation s (run_result l operation f s).0
  unfolding run_result succeeded
  run_result-Does operation f s h = record {
    step = _;
    added = refl;
    done = record { ran = refl; success = h; result = result_of _ _ h };
    same = record { action_id = refl; type = refl; operation = refl; parameters_digest = refl };
  }

  run_apply-SameRequest :
      (key : String) (p : Playbook H) (s : Run H)
      → SameRequest s.receipt (run_apply l key p s).0.receipt
  unfolding run_apply keep_state
  run_apply-SameRequest key p s = ground arith

  run_apply-digest :
      (key : String) (p : Playbook H) (s : Run H)
      → (run_apply l key p s).1 ≡ true
      → (run_apply l key p s).0.receipt.rollback_state_digest
        ≡ digest_bytes l (run_apply l key p s).0.receipt.state
  unfolding run_apply keep_state apply_error succeeded
  run_apply-digest key p s h = ground arith

  run_apply-Does :
      (key : String) (p : Playbook H) (s : Run H)
      → (run_apply l key p s).1 ≡ true
      → Does apply s (run_apply l key p s).0
  unfolding run_apply
  run_apply-Does key p s h = record {
    step = _;
    added = refl;
    done = record { ran = refl; success = h; result = result_of _ _ h };
    same = run_apply-SameRequest key p s;
  }

  -- No phase but the last claims a success.
  run_apply-unclaimed :
      (key : String) (p : Playbook H) (s : Run H)
      → (run_apply l key p s).0.receipt.success ≡ s.receipt.success
  unfolding run_apply keep_state
  run_apply-unclaimed key p s = ground arith

  auto_rollback-unclaimed :
      (what cause : String) (p : Playbook H) (s : Run H)
      → (auto_rollback l what cause p s).receipt.success ≡ s.receipt.success
  unfolding auto_rollback run_result
  auto_rollback-unclaimed what cause p s = ground arith

  recover-unclaimed :
      (p : Playbook H) (s : Run H)
      → (recover_apply_failure l p s).receipt.success ≡ s.receipt.success
  unfolding recover_apply_failure
  recover-unclaimed p s = ground (arith, auto_rollback-unclaimed "apply" s.receipt.error p s)

  run_result-unclaimed :
      (operation : Operation) (f : Method H Result) (s : Run H)
      → (run_result l operation f s).0.receipt.success ≡ s.receipt.success
  unfolding run_result
  run_result-unclaimed operation f s = refl

  module _ (key : String) (p : Playbook H) (s : Run H) where
    abbrev checked : Run H × Bool
    checked = run_result l precheck p.precheck s

    abbrev previewed : Run H × Bool
    previewed = run_result l preview p.preview checked.0

    abbrev applied : Run H × Bool
    applied = run_apply l key p previewed.0

    abbrev verified : Run H × Bool
    verified = run_result l verify p.verify applied.0

    abbrev AllPassed : Type 0
    AllPassed = (checked.1 ≡ true) × (previewed.1 ≡ true) × (applied.1 ≡ true) × (verified.1 ≡ true)

    success-AllPassed :
        s.receipt.success ≡ false → (run_execute l key p s).receipt.success ≡ true → AllPassed
    unfolding run_execute run_change run_verify set_success
    success-AllPassed fresh h =
        let before : previewed.0.receipt.success ≡ false =
          run_result-unclaimed preview p.preview checked.0
          ∙ run_result-unclaimed precheck p.precheck s
          ∙ fresh in
        let after : applied.0.receipt.success ≡ false =
          run_apply-unclaimed key p previewed.0 ∙ before in
        ground (
          arith,
          run_result-unclaimed precheck p.precheck s,
          recover-unclaimed p applied.0,
          run_result-unclaimed verify p.verify applied.0,
          auto_rollback-unclaimed "verification" verified.0.receipt.error p verified.0,
        )

    passed-end :
        AllPassed
        → run_execute l key p s
          ≡ record verified.0 { receipt = record verified.0.receipt { success = true } }
    unfolding run_execute run_change run_verify set_success
    passed-end passed = ground (arith, passed)

  pub run_execute-Succeeds :
      (key : String) (p : Playbook H) (s : Run H)
      → s.receipt.success ≡ false
      → s.receipt.steps ≡ []
      → (dispatch l key execute p s).receipt.success ≡ true
      → Succeeds l (dispatch l key execute p s).receipt
        × SameRequest s.receipt (dispatch l key execute p s).receipt
  unfolding dispatch
  run_execute-Succeeds key p s fresh empty h =
      let passed = success-AllPassed key p s fresh h in
      let (a, b, c, d) = passed in
      let ends = passed-end key p s passed in
      let one = run_result-Does precheck p.precheck s a in
      let two = run_result-Does preview p.preview (checked key p s).0 b in
      let three = run_apply-Does key p (previewed key p s).0 c in
      let four = run_result-Does verify p.verify (applied key p s).0 d in
      let digest = run_apply-digest key p (previewed key p s).0 c in
      let same = run_result-SameState verify p.verify (applied key p s).0 in
      (
        record {
          first = one.step;
          second = two.step;
          third = three.step;
          fourth = four.step;
          steps = ground (arith, ends, empty, one.added, two.added, three.added, four.added);
          checks = one.done;
          previews = two.done;
          applies = three.done;
          verifies = four.done;
          state = ground (arith, ends, same.state, same.digest, digest);
        },
        ground (arith, ends, one.same, two.same, three.same, four.same),
      )
