-- ===== src/Actions/Lifecycle.antt =====
-- What an action may become (the statuses of internal/domain/models.go), beside the code that moves it:
-- the steps of one row, and what any relation needs to be kept by every statement of the actions.
pub mod Rows
pub mod Operations
pub mod PolicyOperations
pub mod PlanOperations
pub mod CompletionOperations
pub mod RevocationOperations
pub mod QueueOperations
pub mod Sequences
pub mod Course
pub mod Unique
pub mod Approved
pub mod ApprovedOnce
use witshield.Base.{ℕ, String, true, ◌≡◌, Bool, List}
use witshield.Actions.Tables.{
  ActionStatus, draft, approved, executing, awaiting_confirmation, confirming, succeeded, failed,
  rolling_back, rolled_back, cancelled, indeterminate, ActionRow, CommandRow, DeviceCommand, Tables,
}
use witshield.Actions.Statement.{
  Fault, is_some, insert_action, insert_command, update_actions, update_commands,
}
use witshield.Actions.Statement.Rules.{Relation, Preorder, Keeps}

-- The moves of a status, but for the approval of a draft.
pub data Move : ActionStatus → ActionStatus → Type 0 where
  lapse : Move draft cancelled
  withdraw : Move approved cancelled
  start : Move approved executing
  succeed : Move executing succeeded
  fail_run : Move executing failed
  -- a result may come before the start was recorded
  succeed_early : Move approved succeeded
  fail_early : Move approved failed
  -- a success that asks for a confirmation, and the outcome of that
  await_confirmation : Move executing awaiting_confirmation
  succeed_confirmed : Move confirming succeeded
  -- a suspension that the controller resumes itself
  resume_process : Move executing rolling_back
  -- the device was revoked before the command started
  give_up_run : Move executing cancelled
  revoke_success : Move succeeded rolling_back
  revoke_waiting : Move awaiting_confirmation rolling_back
  revoke_failure : Move failed rolling_back
  revoke_unknown : Move indeterminate rolling_back
  roll_back : Move rolling_back rolled_back
  fail_back : Move rolling_back failed
  drop_rollback : Move rolling_back cancelled
  confirm : Move awaiting_confirmation confirming
  drop_confirmation : Move confirming cancelled
  expire : Move awaiting_confirmation cancelled
  fail_waiting : Move awaiting_confirmation failed
  fail_confirmation : Move confirming failed
  -- no result came
  lose_run : Move executing indeterminate
  lose_rollback : Move rolling_back indeterminate
  lose_confirmation : Move confirming indeterminate

-- What is proposed stays: an approval is for this device, type, and parameters.
pub record SameProposal (r r' : ActionRow) : Type 0 where
  pub id : r'.id ≡ r.id
  pub device_id : r'.device_id ≡ r.device_id
  pub type : r'.type ≡ r.type
  pub parameters : r'.parameters ≡ r.parameters
  pub preview : r'.preview ≡ r.preview
  pub approval_nonce_hash : r'.approval_nonce_hash ≡ r.approval_nonce_hash
  pub created_at : r'.created_at ≡ r.created_at

-- One step of a row: an approval, which records its time, or a move, which leaves that alone.
pub data Step (r r' : ActionRow) : Type 0 where
  approve :
      SameProposal r r'
      → r.status ≡ draft
      → r'.status ≡ approved
      → is_some r'.approved_at ≡ true
      → Step r r'
  move :
      {a b : ActionStatus}
      → SameProposal r r'
      → r'.approved_at ≡ r.approved_at
      → r'.approved_by ≡ r.approved_by
      → r.status ≡ a
      → r'.status ≡ b
      → Move a b
      → Step r r'

-- Any number of steps.
pub data Evolves (r : ActionRow) : ActionRow → Type 0 where
  here : Evolves r r
  next : {q t : ActionRow} → Evolves r q → Step q t → Evolves r t

-- What does not touch the actions, the commands, the policies or the grants.
pub record Quiet (s t : Tables) : Type 0 where
  pub actions : t.actions ≡ s.actions
  pub commands : t.commands ≡ s.commands
  pub policies : t.policies ≡ s.policies
  pub grants : t.grants ≡ s.grants

-- A new row is a draft, or was approved by a policy.
pub data Fresh (r : ActionRow) : Type 0 where
  as_draft : r.status ≡ draft → Fresh r
  by_policy : r.status ≡ approved → is_some r.approved_at ≡ true → Fresh r

-- A relation that all statements of the actions keep.
pub record KeptByActions (R : Relation) : Type 0 where
  pub order : Preorder R
  pub quiet : (s t : Tables) → Quiet s t → R s t
  pub moves :
      (p : ActionRow → Bool) (f : ActionRow → ActionRow)
      → ((r : ActionRow) → p r ≡ true → Step r (f r))
      → Keeps R (update_actions p f)
  pub adds : (r : ActionRow) → Fresh r → Keeps R (insert_action r)
  pub queues : (c : DeviceCommand) → Keeps R (insert_command c)
  -- an update of commands that starts none
  pub ends :
      (p : CommandRow → Bool) (f : CommandRow → CommandRow)
      → ((c : CommandRow) → (f c).id ≡ c.id)
      → ((c : CommandRow) → (f c).started_at ≡ c.started_at)
      → ((c : CommandRow) → (f c).device_id ≡ c.device_id)
      → ((c : CommandRow) → (f c).type ≡ c.type)
      → ((c : CommandRow) → (f c).payload ≡ c.payload)
      → Keeps R (update_commands p f)
