-- ===== src/Actions/Lifecycle/RevocationOperations.antt =====
-- What every statement of a revocation keeps (`RevokeDevice` of internal/store/auth_devices.go).
use witshield.Base.{
  str_eq, ◌==◌, ℕ, String, Bool, true, false, not, ◌||◌, ◌≡◌, refl, List, [], ◌∷◌, arith,
  if◌then◌else◌,
}
use witshield.Actions.Tables.{
  ActionStatus, ActionRow, CommandRow, approved, executing, awaiting_confirmation, confirming,
  rolling_back, cancelled, indeterminate, draft, succeeded, failed, rolled_back, is_status,
}
use witshield.Actions.Statement.Rules.{
  Relation, Keeps, Keeps-pure, Keeps-if, Keeps-bind, Keeps-read,
}
use witshield.Actions.Gate.{is_action_command}
use witshield.Actions.Completion.{ended}
use witshield.Actions.Revocation.{
  is_under_way, is_given_up, is_revoked_action, revoked_command, settle_revoked_ban,
  record_revocation, revoke_action, revoke_command, revoke_each, open_commands,
  revoke_open_commands,
}
use witshield.Actions.Lifecycle.{Step, move, Move, KeptByActions}
use witshield.Actions.Lifecycle.Operations.{Keeps-audit, Keeps-bans}

given_up-Move :
    (started : Bool) (status : ActionStatus)
    → is_given_up started status ≡ true
    → Move status (if started then indeterminate else cancelled)
unfolding is_given_up is_status
given_up-Move true executing h = Move.lose_run
given_up-Move true rolling_back h = Move.lose_rollback
given_up-Move true confirming h = Move.lose_confirmation
given_up-Move false approved h = Move.withdraw
given_up-Move false executing h = Move.give_up_run
given_up-Move false rolling_back h = Move.drop_rollback
given_up-Move false confirming h = Move.drop_confirmation
given_up-Move false awaiting_confirmation h = Move.expire
given_up-Move false draft h = absurd (ground arith)
given_up-Move false succeeded h = absurd (ground arith)
given_up-Move false failed h = absurd (ground arith)
given_up-Move false rolled_back h = absurd (ground arith)
given_up-Move false cancelled h = absurd (ground arith)
given_up-Move false indeterminate h = absurd (ground arith)
given_up-Move true draft h = absurd (ground arith)
given_up-Move true approved h = absurd (ground arith)
given_up-Move true awaiting_confirmation h = absurd (ground arith)
given_up-Move true succeeded h = absurd (ground arith)
given_up-Move true failed h = absurd (ground arith)
given_up-Move true rolled_back h = absurd (ground arith)
given_up-Move true cancelled h = absurd (ground arith)
given_up-Move true indeterminate h = absurd (ground arith)

revoked-Step :
    (action_id device_id : String) (started : Bool) (message : String) (now : ℕ) (r : ActionRow)
    → is_revoked_action action_id device_id started r ≡ true
    → Step r (ended (if started then indeterminate else cancelled) message now r)
unfolding is_revoked_action ended
revoked-Step action_id device_id started message now r h =
    move (ground arith) refl refl refl refl (given_up-Move started r.status (ground arith))

module _ {R : Relation} (k : KeptByActions R) where
  open k use {order, moves, ends}

  settle-Keeps : (c : CommandRow) → Keeps R (settle_revoked_ban c)
  unfolding settle_revoked_ban
  settle-Keeps c = Keeps-if order (is_under_way c) (λ _. Keeps-bans k _ _) (λ _. Keeps-bans k _ _)

  record-Keeps :
      (details : String) (c : CommandRow) (now : ℕ) → Keeps R (record_revocation details c now)
  unfolding record_revocation
  record-Keeps details c now = Keeps-bind order (settle-Keeps c) (λ _. Keeps-audit k _ _ _ _ _)

  revoke_action-Keeps :
      (device_id : String) (details : CommandRow → String) (c : CommandRow) (now : ℕ)
      → Keeps R (revoke_action device_id details c now)
  unfolding revoke_action
  revoke_action-Keeps device_id details c now =
      Keeps-bind order
        (moves _ _ (revoked-Step c.payload.action_id device_id (is_under_way c) _ now))
        (λ n.
          Keeps-if order (n == 1) (λ _. record-Keeps (details c) c now) (λ _. Keeps-pure order tt))

  revoke_command-Keeps :
      (device_id : String) (details : CommandRow → String) (now : ℕ) (c : CommandRow)
      → Keeps R (revoke_command device_id details now c)
  unfolding revoke_command revoked_command
  revoke_command-Keeps device_id details now c =
      Keeps-bind order (ends _ _ (λ d. refl) (λ d. refl) (λ d. refl) (λ d. refl) (λ d. refl)) (λ n.
        Keeps-if order (not (is_action_command c.type) || str_eq c.payload.action_id "")
          (λ _. Keeps-pure order tt) (λ _. revoke_action-Keeps device_id details c now))

  revoke_each-Keeps :
      (device_id : String) (details : CommandRow → String) (now : ℕ) (rows : List CommandRow)
      → Keeps R (revoke_each device_id details now rows)
  unfolding revoke_each
  revoke_each-Keeps device_id details now [] = Keeps-pure order tt
  revoke_each-Keeps device_id details now (c ∷ rest) =
      Keeps-bind order (revoke_command-Keeps device_id details now c)
        (λ _. revoke_each-Keeps device_id details now rest)

  pub revoke_open_commands-Keeps :
      (device_id : String) (details : CommandRow → String) (now : ℕ)
      → Keeps R (revoke_open_commands device_id details now)
  unfolding revoke_open_commands
  revoke_open_commands-Keeps device_id details now =
      Keeps-read order _
        (λ s. (revoke_each-Keeps device_id details now (open_commands device_id s.commands)).at s)
