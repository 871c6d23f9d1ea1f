-- ===== src/Engine/Lifecycle/Outcome.antt =====
-- What a receipt claims of the outcome of `Engine.Run` (internal/action/engine.go).
use witshield.Base.{String, ◌≡◌, refl, Bool, true, false, Option, none, some, arith}
use witshield.Engine.Types.{
  Operation, precheck, preview, apply, verify, rollback, execute, confirm, other, Playbook, Library,
  Method, Result,
}
use witshield.Engine.Seal.{valid_state}
use witshield.Engine.Lifecycle.{
  Run, run_result, run_apply, auto_rollback, recover_apply_failure, with_state, run_confirm,
  run_apply_only, run_verify, run_change, run_execute, dispatch,
}

-- The operations that run a playbook's Apply.
abbrev pub changes_host : Operation → Bool
changes_host apply = true
changes_host execute = true
changes_host _ = false

module _ {H : Type 0} (l : Library) where
  -- The receipt claims success only where it does not say that the outcome is unknown, and drops
  -- the rollback state of a change that failed for sure.
  pub record IsClear (s : Run H) : Type 0 where
    pub determinate : s.receipt.success ≡ true → s.receipt.indeterminate ≡ false
    pub no_stale_state :
        s.receipt.success ≡ false → s.receipt.indeterminate ≡ false → s.receipt.state ≡ ""

  pub record IsFresh (s : Run H) : Type 0 where
    pub no_success : s.receipt.success ≡ false
    pub known : s.receipt.indeterminate ≡ false
    pub no_state : s.receipt.state ≡ ""

  run_result-IsFresh :
      (operation : Operation) (f : Method H Result) (s : Run H)
      → IsFresh s
      → IsFresh (run_result l operation f s).0
  unfolding run_result
  run_result-IsFresh operation f s h = ground arith

  auto_rollback-IsClear :
      (what cause : String) (p : Playbook H) (s : Run H)
      → s.receipt.success ≡ false
      → IsClear (auto_rollback l what cause p s)
  unfolding auto_rollback run_result
  auto_rollback-IsClear what cause p s h = ground arith

  -- What one phase leaves as it was.
  record SameClaims (s t : Run H) : Type 0 where
    same_success : t.receipt.success ≡ s.receipt.success
    same_indeterminate : t.receipt.indeterminate ≡ s.receipt.indeterminate
    same_state : t.receipt.state ≡ s.receipt.state
    same_invocation : t.invocation ≡ s.invocation

  run_result-SameClaims :
      (operation : Operation) (f : Method H Result) (s : Run H)
      → SameClaims s (run_result l operation f s).0
  unfolding run_result
  run_result-SameClaims operation f s = record {
    same_success = refl;
    same_indeterminate = refl;
    same_state = refl;
    same_invocation = refl;
  }

  run_verify-IsClear :
      (p : Playbook H) (s : Run H)
      → s.receipt.success ≡ false
      → s.receipt.indeterminate ≡ false
      → IsClear (run_verify l p s)
  unfolding run_verify
  run_verify-IsClear p s h k = ground (
    arith,
    run_result-SameClaims verify p.verify s,
    auto_rollback-IsClear "verification" (run_result l verify p.verify s).0.receipt.error p
        (run_result l verify p.verify s).0,
  )

  -- Before a phase that changes the host: nothing claimed, and no rollback state at hand.
  record IsStart (s : Run H) : Type 0 where
    fresh : IsFresh s
    no_rollback : valid_state l s.invocation.state ≡ false

  run_result-IsStart :
      (operation : Operation) (f : Method H Result) (s : Run H)
      → IsStart s
      → IsStart (run_result l operation f s).0
  unfolding run_result
  run_result-IsStart operation f s h = ground arith

  -- After `runApply`: no success is claimed yet, and without a usable rollback state the receipt
  -- has none.
  record IsApplied (s : Run H) (done : Bool) : Type 0 where
    pending : s.receipt.success ≡ false
    sure : done ≡ true → s.receipt.indeterminate ≡ false
    stateless : valid_state l s.invocation.state ≡ false → s.receipt.state ≡ ""

  run_apply-IsApplied :
      (key : String) (p : Playbook H) (s : Run H)
      → IsStart s
      → IsApplied (run_apply l key p s).0 (run_apply l key p s).1
  unfolding run_apply
  run_apply-IsApplied key p s h = ground arith

  recover-IsClear :
      (p : Playbook H) (s : Run H) → IsApplied s false → IsClear (recover_apply_failure l p s)
  unfolding recover_apply_failure
  recover-IsClear p s h = ground (arith, auto_rollback-IsClear "apply" s.receipt.error p s)

  run_apply_only-IsClear :
      (key : String) (p : Playbook H) (s : Run H) → IsStart s → IsClear (run_apply_only l key p s)
  unfolding run_apply_only
  run_apply_only-IsClear key p s h =
      ground (arith, run_apply-IsApplied key p s h, recover-IsClear p (run_apply l key p s).0)

  run_change-IsClear :
      (key : String) (p : Playbook H) (s : Run H) → IsStart s → IsClear (run_change l key p s)
  unfolding run_change
  run_change-IsClear key p s h = ground (
    arith,
    run_apply-IsApplied key p s h,
    recover-IsClear p (run_apply l key p s).0,
    run_verify-IsClear p (run_apply l key p s).0,
  )

  run_execute-IsClear :
      (key : String) (p : Playbook H) (s : Run H) → IsStart s → IsClear (run_execute l key p s)
  unfolding run_execute
  run_execute-IsClear key p s h =
      let s₁ = (run_result l precheck p.precheck s).0 in
      let h₁ : IsStart s₁ = run_result-IsStart precheck p.precheck s h in
      let h₂ : IsStart (run_result l preview p.preview s₁).0 =
        run_result-IsStart preview p.preview s₁ h₁ in
      ground (arith, run_change-IsClear key p (run_result l preview p.preview s₁).0 h₂)

  with_state-IsClear :
      (doubt : Bool) (operation : Operation) (f : Method H Result) (s : Run H)
      → IsFresh s
      → IsClear (with_state l doubt operation f s)
  unfolding with_state
  with_state-IsClear doubt operation f s h =
      ground (arith, run_result-IsFresh operation f s h, run_result-SameClaims operation f s)

  run_confirm-IsClear :
      (f : Option (Method H Result)) (s : Run H) → IsFresh s → IsClear (run_confirm l f s)
  unfolding run_confirm
  run_confirm-IsClear none s h = ground arith
  run_confirm-IsClear (some f) s h = with_state-IsClear true confirm f s h

  pub dispatch-IsClear :
      (key : String) (operation : Operation) (p : Playbook H) (s : Run H)
      → IsFresh s
      → (changes_host operation ≡ true → valid_state l s.invocation.state ≡ false)
      → IsClear (dispatch l key operation p s)
  unfolding dispatch
  dispatch-IsClear key precheck p s h k = ground (arith, run_result-IsFresh precheck p.precheck s h)
  dispatch-IsClear key preview p s h k = ground (arith, run_result-IsFresh preview p.preview s h)
  dispatch-IsClear key apply p s h k =
      run_apply_only-IsClear key p s (record { fresh = h; no_rollback = k refl })
  dispatch-IsClear key verify p s h k = with_state-IsClear false verify p.verify s h
  dispatch-IsClear key rollback p s h k = with_state-IsClear true rollback p.rollback s h
  dispatch-IsClear key confirm p s h k = run_confirm-IsClear p.confirm s h
  dispatch-IsClear key execute p s h k =
      run_execute-IsClear key p s (record { fresh = h; no_rollback = k refl })
  dispatch-IsClear key (other name) p s h k = ground arith
