-- ===== src/Engine/Lifecycle/Phases.antt =====
-- The audit steps that `Engine.Run` records (internal/action/engine.go): every phase that ran has
-- one, in order, and `execute` follows its course.
use witshield.Base.{
  String, ◌≡◌, ◌≢◌, refl, ap, Bool, true, false, Option, none, some, ◌⊎◌, List, [], ◌∷◌, ◌++◌,
  arith,
}
use witshield.Engine.Types.{
  Operation, precheck, preview, apply, verify, rollback, execute, confirm, other, Playbook, Library,
  Method, Result, AuditStep,
}
use witshield.Engine.Lifecycle.{
  Run, run_result, run_apply, auto_rollback, recover_apply_failure, with_state, run_confirm,
  run_apply_only, run_verify, run_change, run_execute, dispatch,
}

unfoldable pub operations : List AuditStep → List Operation
operations [] = []
operations (x ∷ xs) = x.operation ∷ operations xs

operations-snoc :
    (xs : List AuditStep) (x : AuditStep)
    → operations (xs ++ (x ∷ [])) ≡ operations xs ++ (x.operation ∷ [])
unfolding operations
operations-snoc [] x = refl
operations-snoc (y ∷ xs) x = ap (◌∷◌ y.operation) (operations-snoc xs x)

-- The ways that `execute` can go: the phases that ran, and whether it succeeded.
abbrev pub Course : List Operation → Bool → Type 0
Course ran success =
    ((ran ≡ precheck ∷ []) × (success ≡ false))
    ⊎ ((ran ≡ precheck ∷ preview ∷ []) × (success ≡ false))
    ⊎ ((ran ≡ precheck ∷ preview ∷ apply ∷ []) × (success ≡ false))
    ⊎ ((ran ≡ precheck ∷ preview ∷ apply ∷ rollback ∷ []) × (success ≡ false))
    ⊎ ((ran ≡ precheck ∷ preview ∷ apply ∷ verify ∷ []) × (success ≡ true))
    ⊎ ((ran ≡ precheck ∷ preview ∷ apply ∷ verify ∷ rollback ∷ []) × (success ≡ false))

-- The course of `run_change`, from a run that has made phases `before`.
abbrev Change : List Operation → List Operation → Bool → Type 0
Change before ran success =
    ((ran ≡ before ++ (apply ∷ [])) × (success ≡ false))
    ⊎ ((ran ≡ (before ++ (apply ∷ [])) ++ (rollback ∷ [])) × (success ≡ false))
    ⊎ ((ran ≡ (before ++ (apply ∷ [])) ++ (verify ∷ [])) × (success ≡ true))
    ⊎ ((ran ≡ ((before ++ (apply ∷ [])) ++ (verify ∷ [])) ++ (rollback ∷ [])) × (success ≡ false))

module _ {H : Type 0} (l : Library) where
  abbrev phases : Run H → List Operation
  phases s = operations s.receipt.steps

  -- One more phase, and nothing claimed by it.
  record Adds (operation : Operation) (s t : Run H) : Type 0 where
    ran : phases t ≡ phases s ++ (operation ∷ [])
    no_claim : t.receipt.success ≡ s.receipt.success

  run_result-Adds :
      (operation : Operation) (f : Method H Result) (s : Run H)
      → Adds operation s (run_result l operation f s).0
  unfolding run_result
  run_result-Adds operation f s = record {
    ran = operations-snoc s.receipt.steps _;
    no_claim = refl;
  }

  run_apply-Adds :
      (key : String) (p : Playbook H) (s : Run H) → Adds apply s (run_apply l key p s).0
  unfolding run_apply
  run_apply-Adds key p s = record {
    ran = operations-snoc s.receipt.steps _;
    no_claim = ground arith;
  }

  auto_rollback-Adds :
      (what cause : String) (p : Playbook H) (s : Run H)
      → Adds rollback s (auto_rollback l what cause p s)
  unfolding auto_rollback
  auto_rollback-Adds what cause p s = ground (arith, run_result-Adds rollback p.rollback s)

  run_change-Change :
      (key : String) (p : Playbook H) (s : Run H)
      → s.receipt.success ≡ false
      → Change (phases s) (phases (run_change l key p s)) (run_change l key p s).receipt.success
  unfolding run_change run_verify recover_apply_failure
  run_change-Change key p s h =
      let s₁ = (run_apply l key p s).0 in
      let s₂ = (run_result l verify p.verify s₁).0 in
      ground (
        arith,
        run_apply-Adds key p s,
        run_result-Adds verify p.verify s₁,
        auto_rollback-Adds "apply" s₁.receipt.error p s₁,
        auto_rollback-Adds "verification" s₂.receipt.error p s₂,
      )

  pub run_execute-Course :
      (key : String) (p : Playbook H) (s : Run H)
      → s.receipt.success ≡ false
      → s.receipt.steps ≡ []
      → Course (phases (dispatch l key execute p s)) (dispatch l key execute p s).receipt.success
  unfolding dispatch run_execute operations
  run_execute-Course key p s h k =
      let s₁ = (run_result l precheck p.precheck s).0 in
      let s₂ = (run_result l preview p.preview s₁).0 in
      ground (
        arith,
        run_result-Adds precheck p.precheck s,
        run_result-Adds preview p.preview s₁,
        run_change-Change key p s₂,
      )

snoc-ne-nil : (xs : List AuditStep) (x : AuditStep) → xs ++ (x ∷ []) ≢ []
snoc-ne-nil [] x e = cc
snoc-ne-nil (y ∷ xs) x e = cc

-- A run with no audit step has not touched the host.
module _ {H : Type 0} (l : Library) where
  run_result_recorded :
      (operation : Operation) (f : Method H Result) (s : Run H)
      → (run_result l operation f s).0.receipt.steps ≢ []
  unfolding run_result
  run_result_recorded operation f s = snoc-ne-nil s.receipt.steps _

  run_apply_recorded :
      (key : String) (p : Playbook H) (s : Run H) → (run_apply l key p s).0.receipt.steps ≢ []
  unfolding run_apply
  run_apply_recorded key p s = snoc-ne-nil s.receipt.steps _

  auto_rollback_recorded :
      (what cause : String) (p : Playbook H) (s : Run H)
      → (auto_rollback l what cause p s).receipt.steps ≢ []
  unfolding auto_rollback
  auto_rollback_recorded what cause p s = ground (arith, run_result_recorded rollback p.rollback s)

  with_state_quiet :
      (doubt : Bool) (operation : Operation) (f : Method H Result) (s : Run H)
      → (with_state l doubt operation f s).receipt.steps ≡ []
      → (with_state l doubt operation f s).host ≡ s.host
  unfolding with_state
  with_state_quiet doubt operation f s = ground (arith, run_result_recorded operation f s)

  run_confirm_quiet :
      (f : Option (Method H Result)) (s : Run H)
      → (run_confirm l f s).receipt.steps ≡ []
      → (run_confirm l f s).host ≡ s.host
  unfolding run_confirm
  run_confirm_quiet none s h = ground arith
  run_confirm_quiet (some f) s h = with_state_quiet true confirm f s h

  run_change_recorded :
      (key : String) (p : Playbook H) (s : Run H) → (run_change l key p s).receipt.steps ≢ []
  unfolding run_change recover_apply_failure run_verify
  run_change_recorded key p s =
      let s₁ = (run_apply l key p s).0 in
      ground (
        arith,
        run_apply_recorded key p s,
        run_result_recorded verify p.verify s₁,
        auto_rollback_recorded "apply" s₁.receipt.error p s₁,
        auto_rollback_recorded "verification" (run_result l verify p.verify s₁).0.receipt.error p
            (run_result l verify p.verify s₁).0,
      )

  pub dispatch_quiet :
      (key : String) (operation : Operation) (p : Playbook H) (s : Run H)
      → (dispatch l key operation p s).receipt.steps ≡ []
      → (dispatch l key operation p s).host ≡ s.host
  unfolding dispatch
  dispatch_quiet key precheck p s = ground (arith, run_result_recorded precheck p.precheck s)
  dispatch_quiet key preview p s = ground (arith, run_result_recorded preview p.preview s)
  dispatch_quiet key apply p s =
      unfold run_apply_only recover_apply_failure in
      ground (
        arith,
        run_apply_recorded key p s,
        auto_rollback_recorded "apply" (run_apply l key p s).0.receipt.error p
            (run_apply l key p s).0,
      )
  dispatch_quiet key verify p s = with_state_quiet false verify p.verify s
  dispatch_quiet key rollback p s = with_state_quiet true rollback p.rollback s
  dispatch_quiet key confirm p s = run_confirm_quiet p.confirm s
  dispatch_quiet key execute p s =
      let s₁ = (run_result l precheck p.precheck s).0 in
      let s₂ = (run_result l preview p.preview s₁).0 in
      unfold run_execute in
      ground (
        arith,
        run_result_recorded precheck p.precheck s,
        run_result_recorded preview p.preview s₁,
        run_change_recorded key p s₂,
      )
  dispatch_quiet key (other name) p s = ground arith
