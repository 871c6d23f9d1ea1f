-- ===== src/Engine/Lifecycle.antt =====
-- `Engine.Run` of internal/action/engine.go: the guards, the phases with their audit steps, the
-- recovery of a failed apply, and the receipt.
pub mod Outcome
pub mod Phases
pub mod Success
use witshield.Base.{
  ℕ, ◌+◌, String, len, Bool, true, false, not, ◌&&◌, ◌||◌, Option, none, some, [], ◌∷◌, ◌++◌, ltb,
  leb, if◌then◌else◌,
}
use witshield.Engine.Types.{
  Operation, precheck, preview, apply, verify, rollback, execute, confirm, other, Invocation,
  Result, ApplyResult, Method, Playbook, AuditStep, Receipt, Library, max_rollback_state_bytes,
}
use witshield.Engine.Seal.{◌⊹◌, valid_state, digest_bytes, seal_state}

-- What `Run` holds between two phases: the receipt, the invocation, the host, and the number of
-- clock readings so far.
pub record Run (H : Type 0) : Type 0 where
  pub receipt : Receipt
  pub invocation : Invocation
  pub host : H
  pub reads : ℕ

error_of : Option String → String
error_of none = ""
error_of (some e) = e

succeeded : Option String → Bool
succeeded none = true
succeeded (some _) = false

-- The error of an apply after the check of its rollback state, and whether that check makes the
-- outcome unknown.
apply_error : Bool → String → Option String → Option String × Bool
apply_error true state err = (err, false)
apply_error false state none = (some "playbook returned invalid or oversized rollback state", true)
apply_error false state (some e) =
    if ltb 0 (len state)
    then (some ("apply may have changed the host but returned unusable rollback state: " ⊹ e), true)
    else (some e, false)

abbrev pub usable : Library → String → Bool
usable l state = valid_state l state && leb (len state) max_rollback_state_bytes

module _ {H : Type 0} (l : Library) where
  open l use {now}

  -- `runResult`: one phase and its audit step.
  unfoldable pub run_result : Operation → Method H Result → Run H → Run H × Bool
  unfolding error_of succeeded
  run_result operation f s =
      let (host, result, err) = f s.invocation s.host in
      let step : AuditStep = record {
        operation = operation;
        started_at = now s.reads;
        finished_at = now (s.reads + 1);
        success = succeeded err;
        result = elim err [ none ↦ some result | some _ ↦ none ];
        error = error_of err;
      } in
      (
        record s {
          host = host;
          reads = s.reads + 2;
          receipt = record s.receipt {
            steps = s.receipt.steps ++ (step ∷ []);
            error = elim err [ none ↦ s.receipt.error | some e ↦ e ];
          };
        },
        succeeded err,
      )

  -- What a usable rollback state adds to the run.
  keep_state : String → Bool → ApplyResult → Run H → Run H
  keep_state key false result s = s
  keep_state key true result s =
      let state =
        seal_state l key s.receipt.action_id s.receipt.type s.invocation.parameters result.state in
      record s {
        receipt = record s.receipt {
          state = state;
          rollback_state_digest = digest_bytes l state;
          confirm_by = result.confirm_by;
        };
        invocation = record s.invocation { state = result.state };
      }

  -- `runApply`.
  unfoldable pub run_apply : String → Playbook H → Run H → Run H × Bool
  unfolding error_of succeeded apply_error keep_state
  run_apply key p s =
      let (host, result, err) = p.apply s.invocation s.host in
      let (err', unknown) = apply_error (usable l result.state) result.state err in
      let step : AuditStep = record {
        operation = apply;
        started_at = now s.reads;
        finished_at = now (s.reads + 1);
        success = succeeded err';
        result = elim err' [ none ↦ some result.result | some _ ↦ none ];
        error = error_of err';
      } in
      let s' =
        keep_state key (usable l result.state) result
          (record s { host = host; reads = s.reads + 2 }) in
      (
        record s' {
          receipt = record s'.receipt {
            steps = s.receipt.steps ++ (step ∷ []);
            indeterminate = s.receipt.indeterminate || unknown;
            error = elim err' [ none ↦ s.receipt.error | some e ↦ e ];
          };
        },
        succeeded err',
      )

  -- The rollback that the engine runs by itself: on success the receipt drops the rollback state,
  -- else the outcome is unknown. `cause` is the error that asked for it.
  auto_rollback : String → String → Playbook H → Run H → Run H
  auto_rollback what cause p s =
      let (s', restored) = run_result rollback p.rollback s in
      if restored
      then record s' {
        receipt = record s'.receipt {
          error = what ⊹ " failed and the change was rolled back: " ⊹ cause;
          state = "";
          rollback_state_digest = "";
          confirm_by = none;
        };
      }
      else record s' {
        receipt = record s'.receipt {
          indeterminate = true;
          error =
              what ⊹ " failed; automatic rollback also failed: " ⊹ cause ⊹ "; " ⊹ s'.receipt.error;
        };
      }

  -- `recoverApplyFailure`.
  recover_apply_failure : Playbook H → Run H → Run H
  recover_apply_failure p s =
      if valid_state l s.invocation.state then auto_rollback "apply" s.receipt.error p s else s

  set_success : Run H × Bool → Run H
  set_success (s, done) = record s { receipt = record s.receipt { success = done } }

  set_error : String → Run H → Run H
  set_error e s = record s { receipt = record s.receipt { error = e } }

  -- After a phase on a given rollback state: a failure leaves the outcome unknown if `doubt`.
  conclude : Bool → Run H × Bool → Run H
  conclude doubt (s, done) = record s {
    receipt = record s.receipt {
      success = done;
      indeterminate = s.receipt.indeterminate || (doubt && not done);
    };
  }

  -- A phase that needs a rollback state.
  with_state : Bool → Operation → Method H Result → Run H → Run H
  unfolding conclude set_error
  with_state doubt operation f s =
      if valid_state l s.invocation.state
      then conclude doubt (run_result operation f s)
      else set_error "rollback state is required" s

  run_confirm : Option (Method H Result) → Run H → Run H
  unfolding set_error
  run_confirm (some f) s = with_state true confirm f s
  run_confirm none s =
      if valid_state l s.invocation.state
      then set_error "unsupported action operation" s
      else set_error "rollback state is required" s

  run_apply_only : String → Playbook H → Run H → Run H
  unfolding set_success
  run_apply_only key p s =
      let (s', done) = run_apply key p s in
      if done then set_success (s', true) else recover_apply_failure p s'

  -- The verify phase of `execute`, and the rollback after it has failed.
  run_verify : Playbook H → Run H → Run H
  unfolding set_success
  run_verify p s =
      let (s', done) = run_result verify p.verify s in
      if done then set_success (s', true) else auto_rollback "verification" s'.receipt.error p s'

  run_change : String → Playbook H → Run H → Run H
  run_change key p s =
      let (s', done) = run_apply key p s in
      if done then run_verify p s' else recover_apply_failure p s'

  run_execute : String → Playbook H → Run H → Run H
  run_execute key p s =
      let (s₁, checked) = run_result precheck p.precheck s in
      let (s₂, previewed) = run_result preview p.preview s₁ in
      if checked then (if previewed then run_change key p s₂ else s₂) else s₁

  -- The `switch` of `Run`.
  pub dispatch : String → Operation → Playbook H → Run H → Run H
  unfolding set_success set_error
  dispatch key precheck p s = set_success (run_result precheck p.precheck s)
  dispatch key preview p s = set_success (run_result preview p.preview s)
  dispatch key apply p s = run_apply_only key p s
  dispatch key verify p s = with_state false verify p.verify s
  dispatch key rollback p s = with_state true rollback p.rollback s
  dispatch key confirm p s = run_confirm p.confirm s
  dispatch key execute p s = run_execute key p s
  dispatch key (other name) p s = set_error "unsupported action operation" s

-- Opens every phase, for a run at a concrete input.
unfoldable pub lifecycle : Unit {0}
unfolding run_result run_apply auto_rollback recover_apply_failure with_state run_confirm
    run_apply_only run_verify run_change run_execute dispatch
lifecycle = tt
