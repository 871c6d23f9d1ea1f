-- ===== src/Actions/Lifecycle/CompletionOperations.antt =====
-- What every statement of a completion keeps (`CompleteCommandAndActionWithOutcome` of
-- internal/store/action_results.go).
use witshield.Base.{
  str_eq, ℕ, String, Bool, true, false, ◌&&◌, ◌||◌, ◌≡◌, refl, Option, none, some, arith,
  if◌then◌else◌,
}
use witshield.Actions.Tables.{
  ActionStatus, ActionRow, CommandRow, CommandType, executing, confirming, succeeded, failed,
  rolling_back, rolled_back, awaiting_confirmation, indeterminate, eq_of_is_status, execute_action,
  rollback_action, confirm_action, scan,
}
use witshield.Actions.Statement.{first_where, is_some, pure}
use witshield.Actions.Statement.Rules.{
  Relation, Keeps, Keeps-pure, Keeps-fail, Keeps-require, Keeps-if, Keeps-bind, Keeps-read,
}
use witshield.Actions.Gate.{is_command_of, is_action_command}
use witshield.Actions.Judgement.{Judgement}
use witshield.Actions.Completion.{
  Completion, is_own, executed, executed_status, result_status, awaits, ended, finished,
  settle_ban_by, settle_ban, resume_process, queue_resume, end_execution, end_rollback,
  end_confirmation, warn, end_action, finish_command, complete_open, complete_found,
  complete_command_and_action,
}
use witshield.Actions.Lifecycle.{Step, move, Move, KeptByActions}
use witshield.Actions.Lifecycle.Operations.{Keeps-audit, Keeps-bans}

own_status :
    (action_id device_id : String) (status : ActionStatus) (r : ActionRow)
    → is_own action_id device_id status r ≡ true
    → r.status ≡ status
unfolding is_own
own_status action_id device_id status r h = ground (arith, eq_of_is_status r.status status)

executed_status-Move : (x : Completion) → Move executing (executed_status x)
unfolding executed_status result_status
executed_status-Move x =
    go x.judged.legacy_process_resume (awaits x) x.judged.indeterminate x.judged.ok
  where
    go :
        (resumes waits unknown good : Bool)
        → Move executing (
            if resumes
            then rolling_back
            else if waits
            then awaiting_confirmation
            else if unknown
            then indeterminate
            else if good
            then succeeded
            else failed)
    go true waits unknown good = Move.resume_process
    go false true unknown good = Move.await_confirmation
    go false false true good = Move.lose_run
    go false false false true = Move.succeed
    go false false false false = Move.fail_run

executed-Step :
    (action_id device_id : String) (x : Completion) (now : ℕ) (r : ActionRow)
    → is_own action_id device_id executing r ≡ true
    → Step r (executed x now r)
unfolding executed
executed-Step action_id device_id x now r h =
    move (ground arith) refl refl (own_status action_id device_id executing r h) refl
      (executed_status-Move x)

rolled-Move : (j : Judgement) → Move rolling_back (result_status j rolled_back)
unfolding result_status
rolled-Move j = go j.indeterminate j.ok
  where
    go :
        (unknown good : Bool)
        → Move rolling_back
            (if unknown then indeterminate else if good then rolled_back else failed)
    go true good = Move.lose_rollback
    go false true = Move.roll_back
    go false false = Move.fail_back

confirmed-Move : (j : Judgement) → Move confirming (result_status j succeeded)
unfolding result_status
confirmed-Move j = go j.indeterminate j.ok
  where
    go :
        (unknown good : Bool)
        → Move confirming (if unknown then indeterminate else if good then succeeded else failed)
    go true good = Move.lose_confirmation
    go false true = Move.succeed_confirmed
    go false false = Move.fail_confirmation

ended-Step :
    (action_id device_id : String) {from to : ActionStatus} (message : String) (now : ℕ)
    (r : ActionRow)
    → Move from to
    → is_own action_id device_id from r ≡ true
    → Step r (ended to message now r)
unfolding ended
ended-Step action_id device_id {from} message now r m h =
    move (ground arith) refl refl (own_status action_id device_id from r h) refl m

module _ {R : Relation} (k : KeptByActions R) where
  open k use {order, moves, queues, ends}

  settle_ban_by-Keeps :
      (started ttl : Option ℕ) (j : Judgement) (action_id : String) (now : ℕ)
      → Keeps R (settle_ban_by started ttl j action_id now)
  unfolding settle_ban_by
  settle_ban_by-Keeps (some started) (some ttl) j action_id now =
      Keeps-bind order (Keeps-bans k _ _) (λ _. Keeps-pure order _)
  settle_ban_by-Keeps (some started) none j action_id now = Keeps-fail order _
  settle_ban_by-Keeps none ttl j action_id now = Keeps-fail order _

  settle_ban-Keeps : (c : CommandRow) (j : Judgement) (now : ℕ) → Keeps R (settle_ban c j now)
  unfolding settle_ban
  settle_ban-Keeps c j now =
      Keeps-if order ((j.ok || j.indeterminate) && str_eq c.payload.type "temporary_ip_ban")
        (λ _. settle_ban_by-Keeps c.started_at c.payload.ttl_seconds j c.payload.action_id now)
        (λ _. Keeps-bind order (Keeps-bans k _ _) (λ _. Keeps-pure order false))

  resume_process-Keeps :
      (x : Completion) (action_id : String) (now : ℕ) → Keeps R (resume_process x action_id now)
  unfolding resume_process
  resume_process-Keeps x action_id now =
      Keeps-bind order (queues x.resume) (λ _. Keeps-audit k _ _ _ _ _)

  queue_resume-Keeps :
      (x : Completion) (action_id : String) (now : ℕ) → Keeps R (queue_resume x action_id now)
  unfolding queue_resume
  queue_resume-Keeps x action_id now =
      Keeps-if order x.judged.legacy_process_resume {m = resume_process x action_id now}
        (λ _. resume_process-Keeps x action_id now) (λ _. Keeps-pure order tt)

  end_execution-Keeps :
      (x : Completion) (c : CommandRow) (now : ℕ) → Keeps R (end_execution x c now)
  unfolding end_execution
  end_execution-Keeps x c now =
      Keeps-bind order (moves _ _ (executed-Step c.payload.action_id c.device_id x now)) (λ n.
        Keeps-bind order (Keeps-require order _ _) (λ _.
          Keeps-bind order (queue_resume-Keeps x c.payload.action_id now) (λ _.
            Keeps-bind order (settle_ban-Keeps c x.judged now)
              (λ late. Keeps-bind order (Keeps-audit k _ _ _ _ _) (λ _. Keeps-pure order late)))))

  end_rollback-Keeps : (x : Completion) (c : CommandRow) (now : ℕ) → Keeps R (end_rollback x c now)
  unfolding end_rollback
  end_rollback-Keeps x c now =
      Keeps-bind order
        (moves _ _ (λ r.
          ended-Step c.payload.action_id c.device_id x.judged.error_text now r
            (rolled-Move x.judged)))
        (λ n. Keeps-bind order (Keeps-require order _ _) (λ _.
          Keeps-bind order (Keeps-bans k _ _) (λ _.
            Keeps-bind order (Keeps-bans k _ _)
              (λ _. Keeps-bind order (Keeps-audit k _ _ _ _ _) (λ _. Keeps-pure order false)))))

  end_confirmation-Keeps :
      (x : Completion) (c : CommandRow) (now : ℕ) → Keeps R (end_confirmation x c now)
  unfolding end_confirmation
  end_confirmation-Keeps x c now =
      Keeps-bind order
        (moves _ _ (λ r.
          ended-Step c.payload.action_id c.device_id x.judged.error_text now r
            (confirmed-Move x.judged)))
        (λ n.
          Keeps-bind order (Keeps-require order _ _)
            (λ _. Keeps-bind order (Keeps-audit k _ _ _ _ _) (λ _. Keeps-pure order false)))

  warn-Keeps :
      (b : Bool) (action_id event details : String) (now : ℕ)
      → Keeps R (warn b action_id event details now)
  unfolding warn
  warn-Keeps b action_id event details now =
      Keeps-if order b (λ _. Keeps-audit k _ _ _ _ _) (λ _. Keeps-pure order tt)

  end_action-Keeps : (x : Completion) (c : CommandRow) (now : ℕ) → Keeps R (end_action x c now)
  unfolding end_action
  end_action-Keeps x c now = Keeps-bind order (by_type c.type) (λ late.
      Keeps-bind order (warn-Keeps x.judged.trusted_successful_receipt _ _ _ now)
        (λ _. warn-Keeps late _ _ _ now))
    where
      by_type :
          (type : CommandType)
          → Keeps R (elim type [
            | execute_action ↦ end_execution x c now
            | rollback_action ↦ end_rollback x c now
            | confirm_action ↦ end_confirmation x c now
            | scan ↦ pure false
          ])
      by_type execute_action = end_execution-Keeps x c now
      by_type rollback_action = end_rollback-Keeps x c now
      by_type confirm_action = end_confirmation-Keeps x c now
      by_type scan = Keeps-pure order false

  finish_command-Keeps :
      (x : Completion) (c : CommandRow) (now : ℕ) → Keeps R (finish_command x c now)
  unfolding finish_command finished
  finish_command-Keeps x c now =
      Keeps-bind order (ends _ _ (λ d. refl) (λ d. refl) (λ d. refl) (λ d. refl) (λ d. refl)) (λ n.
        Keeps-if order (is_action_command c.type) (λ _. end_action-Keeps x c now)
          (λ _. Keeps-pure order tt))

  open-Keeps : (x : Completion) (c : CommandRow) (now : ℕ) → Keeps R (complete_open x c now)
  unfolding complete_open
  open-Keeps x c now =
      Keeps-bind order (Keeps-require order _ _)
        (λ _. Keeps-bind order (Keeps-require order _ _) (λ _. finish_command-Keeps x c now))

  found-Keeps :
      (effect : CommandRow → Completion) (o : Option CommandRow) (now : ℕ)
      → Keeps R (complete_found effect o now)
  unfolding complete_found
  found-Keeps effect none now = Keeps-fail order _
  found-Keeps effect (some c) now =
      Keeps-if order (is_some c.completed_at) (λ _. Keeps-pure order tt)
        (λ _. open-Keeps (effect c) c now)

  pub complete_command_and_action-Keeps :
      (effect : CommandRow → Completion) (device_id command_id : String) (now : ℕ)
      → Keeps R (complete_command_and_action effect device_id command_id now)
  unfolding complete_command_and_action
  complete_command_and_action-Keeps effect device_id command_id now = Keeps-read order _ (λ s.
      (found-Keeps effect (first_where (is_command_of command_id device_id) s.commands) now).at s)
