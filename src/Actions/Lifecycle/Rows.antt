-- ===== src/Actions/Lifecycle/Rows.antt =====
-- The updates of the code are steps of the rows that they match.
use witshield.Base.{
  ℕ, String, Bool, true, ◌≡◌, ◌⊎◌, inl, inr, refl, false, ◌||◌, if◌then◌else◌, arith,
}
use witshield.Actions.Tables.{
  ActionStatus, draft, approved, executing, awaiting_confirmation, confirming, succeeded, failed,
  rolling_back, indeterminate, ActionRow, is_status, eq_of_is_status,
}
use witshield.Actions.Approval.{
  is_stale_draft, lapsed, is_approvable, approved_row, Action, draft_row,
}
use witshield.Actions.Transitions.{
  is_action_in, moved, is_completable, completed, is_revocable, set_status, is_confirmable,
  unconfirmed,
}
use witshield.Actions.Policy.{called_off, policy_row}
use witshield.Actions.Gate.{is_requested_action, is_approved_action, is_requested, started_action}
use witshield.Actions.Lifecycle.{CommandRow, Step, approve, move, Fresh, as_draft, by_policy, Move}

pub lapsed-Step :
    (device_id : String) (now : ℕ) (r : ActionRow)
    → is_stale_draft device_id now r ≡ true
    → Step r (lapsed now r)
unfolding is_stale_draft lapsed
lapsed-Step device_id now r h =
    let from : r.status ≡ draft = ground (arith, eq_of_is_status r.status draft) in
    move (ground arith) refl refl from refl Move.lapse

pub approved_row-Step :
    (id nonce_hash admin_id : String) (now : ℕ) (r : ActionRow)
    → is_approvable id nonce_hash now r ≡ true
    → Step r (approved_row admin_id now r)
unfolding is_approvable approved_row
approved_row-Step id nonce_hash admin_id now r h =
    let from : r.status ≡ draft = ground (arith, eq_of_is_status r.status draft) in
    approve (ground arith) from refl refl

pub moved-Step :
    (id error_text : String) (now : ℕ) (from to : ActionStatus) (r : ActionRow)
    → Move from to
    → is_action_in id from r ≡ true
    → Step r (moved to error_text now r)
unfolding is_action_in moved
moved-Step id error_text now from to r m h =
    let at : r.status ≡ from = ground (arith, eq_of_is_status r.status from) in
    move (ground arith) refl refl at refl m

pub or_cases : (a b : Bool) → (a || b) ≡ true → (a ≡ true) ⊎ (b ≡ true)
or_cases true b h = inl refl
or_cases false b h = inr h

pub completed-Step :
    (id rollback error_text : String) (ok : Bool) (now : ℕ) (r : ActionRow)
    → is_completable id r ≡ true
    → Step r (completed (if ok then succeeded else failed) rollback error_text now r)
unfolding is_completable completed
completed-Step id rollback error_text true now r h =
    elim (or_cases (is_status r.status executing) (is_status r.status approved) (ground arith)) [
      | inl e ↦ move (ground arith) refl refl (eq_of_is_status _ _ e) refl Move.succeed
      | inr e ↦ move (ground arith) refl refl (eq_of_is_status _ _ e) refl Move.succeed_early
    ]
completed-Step id rollback error_text false now r h =
    elim (or_cases (is_status r.status executing) (is_status r.status approved) (ground arith)) [
      | inl e ↦ move (ground arith) refl refl (eq_of_is_status _ _ e) refl Move.fail_run
      | inr e ↦ move (ground arith) refl refl (eq_of_is_status _ _ e) refl Move.fail_early
    ]

pub revoked-Step :
    (id : String) (now : ℕ) (r : ActionRow)
    → is_revocable id r ≡ true
    → Step r (set_status rolling_back now r)
unfolding is_revocable set_status
revoked-Step id now r h =
    let late = is_status r.status failed || is_status r.status indeterminate in
    let step = λ (a : ActionStatus) (m : Move a rolling_back) (e : is_status r.status a ≡ true).
      let s : Step r (record r { status = rolling_back; updated_at = now }) =
        move (ground arith) refl refl (eq_of_is_status r.status a e) refl m in
      s in
    elim (or_cases (is_status r.status succeeded || is_status r.status awaiting_confirmation) late
      (ground arith)) [
        | inl h ↦
            elim (or_cases (is_status r.status succeeded) (is_status r.status awaiting_confirmation)
              h) [
                | inl e ↦ step succeeded Move.revoke_success e
                | inr e ↦ step awaiting_confirmation Move.revoke_waiting e
              ]
        | inr h ↦ elim (or_cases (is_status r.status failed) (is_status r.status indeterminate) h) [
          | inl e ↦ step failed Move.revoke_failure e
          | inr e ↦ step indeterminate Move.revoke_unknown e
        ]
      ]

pub confirming-Step :
    (id : String) (now : ℕ) (r : ActionRow)
    → is_confirmable id now r ≡ true
    → Step r (set_status confirming now r)
unfolding is_confirmable set_status
confirming-Step id now r h =
    let from : r.status ≡ awaiting_confirmation =
      ground (arith, eq_of_is_status r.status awaiting_confirmation) in
    move (ground arith) refl refl from refl Move.confirm

pub unconfirmed-Step :
    (id : String) (now : ℕ) (r : ActionRow)
    → is_action_in id awaiting_confirmation r ≡ true
    → Step r (unconfirmed now r)
unfolding is_action_in unconfirmed
unconfirmed-Step id now r h =
    let from : r.status ≡ awaiting_confirmation =
      ground (arith, eq_of_is_status r.status awaiting_confirmation) in
    move (ground arith) refl refl from refl Move.expire

pub called_off-Step :
    (message : String) (now : ℕ) (r : ActionRow)
    → is_requested r.status ≡ true
    → Step r (called_off message now r)
unfolding is_requested called_off
called_off-Step message now r h =
    let early = is_status r.status approved || is_status r.status rolling_back in
    elim (or_cases early (is_status r.status confirming) h) [
      | inr e ↦
          move (ground arith) refl refl (eq_of_is_status r.status confirming e) refl
            Move.drop_confirmation
      | inl h ↦ elim (or_cases (is_status r.status approved) (is_status r.status rolling_back) h) [
        | inl e ↦
            move (ground arith) refl refl (eq_of_is_status r.status approved e) refl Move.withdraw
        | inr e ↦
            move (ground arith) refl refl (eq_of_is_status r.status rolling_back e) refl
              Move.drop_rollback
      ]
    ]

pub started_action-Step :
    (now : ℕ) (r : ActionRow) → is_status r.status approved ≡ true → Step r (started_action now r)
unfolding started_action
started_action-Step now r e =
    move (ground arith) refl refl (eq_of_is_status r.status approved e) refl Move.start

pub policy_row-Fresh : (x : Action) (policy_actor : String) → Fresh (policy_row x policy_actor)
unfolding policy_row
policy_row-Fresh x policy_actor = by_policy refl refl

pub draft_row-Fresh :
    (x : Action) (nonce_hash : String) → x.status ≡ draft → Fresh (draft_row x nonce_hash)
unfolding draft_row
draft_row-Fresh x nonce_hash e = as_draft e

pub requested_of_approved :
    (status : ActionStatus) → is_status status approved ≡ true → is_requested status ≡ true
unfolding is_requested
requested_of_approved status h = ground arith

pub requested_of_requested_action :
    (c : CommandRow) (r : ActionRow) → is_requested_action c r ≡ true → is_requested r.status ≡ true
unfolding is_requested_action
requested_of_requested_action c r h = ground arith

pub approved_of_approved_action :
    (c : CommandRow) (r : ActionRow)
    → is_approved_action c r ≡ true
    → is_status r.status approved ≡ true
unfolding is_approved_action
approved_of_approved_action c r h = ground arith
