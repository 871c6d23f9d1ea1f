-- ===== src/Actions/Lifecycle/Sequences.antt =====
-- A relation that the statements keep holds across every call. For the two calls that change policies
-- and start commands it is shown apart, where the relation does not allow any such change.
use witshield.Actions.PolicyGrants.{PolicyGrant, store_grant}
use witshield.Actions.Transitions.{request_rollback, mark_action_executing}
use witshield.Actions.Statement.{
  update_actions, insert_action, insert_command, update_commands, find_action, update_where,
  transact,
}
use witshield.Defense.Correlator.{DefensePolicy}
use witshield.Actions.Approval.{expire_draft_actions}
use witshield.Actions.Gate.{start_action_command, mark_started}
use witshield.Actions.Policy.{store_policy}
use witshield.Base.{arith, ◌++◌, none, ℕ, String, Bool, true, ◌≡◌, refl, List, [], ◌∷◌}
use witshield.Actions.Tables.{Mode, Tables}
use witshield.Actions.Lifecycle.CompletionOperations.{complete_command_and_action-Keeps}
use witshield.Actions.Lifecycle.RevocationOperations.{revoke_open_commands-Keeps}
use witshield.Actions.Lifecycle.PlanOperations.{create_action_from_response_plan-Keeps}
use witshield.Actions.Calls.{
  propose, finish, give_up, set_grant, expire_commands, enqueue, claim, answer,
  limited_policy_action, policy_action, end_revocation, expire_confirmations, confirm_and_enqueue,
  revoke_and_enqueue, revoke, complete, mark_executing, approve_and_enqueue, approve, expire_drafts,
  create, start, perform_all, perform, put_policy, Call,
}
use witshield.Actions.Statement.Rules.{
  Keeps-pure, Keeps-require, Keeps-bind, transact-Ends, Keeps-constrained, Relation, transact-Keeps,
}
use witshield.Actions.Lifecycle.{
  CommandRow, Move, Fresh, Keeps, insert_command, Step, insert_action, ActionRow, update_commands,
  Preorder, update_actions, KeptByActions,
}
use witshield.Actions.Lifecycle.Operations.{
  create_action-Keeps, expire_draft_actions_tx-Keeps, approve_action-Keeps,
  approve_action_and_enqueue-Keeps, transition_action-Keeps, complete_action-Keeps,
  request_rollback_and_enqueue-Keeps, request_confirmation_and_enqueue-Keeps,
  expire_action_confirmations-Keeps, complete_rollback-Keeps,
}
use witshield.Actions.Lifecycle.QueueOperations.{
  expire_stale-Keeps, enqueue_command-Keeps, claim_commands-Keeps, complete_command-Keeps,
}
use witshield.Actions.Lifecycle.PolicyOperations.{
  put_policy_grant-Keeps, insert_enqueue-Keeps, create_limited-Keeps, put_policy-Keeps,
  start_action_command-Ends,
}

abbrev pub Special : Relation → Tables → Call → Type 0
Special R s (put_policy device_id p now) = R s (perform (put_policy device_id p now) s)
Special R s (set_grant g) = R s (perform (set_grant g) s)
Special R s (start device_id command_id now) = R s (perform (start device_id command_id now) s)
Special R s _ = Unit

module _ {R : Relation} (k : KeptByActions R) where
  open k use {order}

  pub perform-R : (c : Call) (s : Tables) → Special R s c → R s (perform c s)
  unfolding perform expire_draft_actions mark_action_executing request_rollback
  perform-R (create x nonce_hash actor fresh d) s h =
      transact-Keeps order (create_action-Keeps k x nonce_hash actor fresh d) s
  perform-R (propose q d) s h =
      transact-Keeps order (create_action_from_response_plan-Keeps k q d) s
  perform-R (expire_drafts now) s h =
      transact-Keeps order (expire_draft_actions_tx-Keeps k "" now) s
  perform-R (approve id nonce_hash admin_id now) s h =
      transact-Keeps order (approve_action-Keeps k id nonce_hash admin_id now) s
  perform-R (approve_and_enqueue id nonce_hash admin_id cmd now) s h =
      transact-Keeps order (approve_action_and_enqueue-Keeps k id nonce_hash admin_id cmd now) s
  perform-R (mark_executing id now) s h =
      transact-Keeps order (transition_action-Keeps k _ _ _ _ _ _ _ _ Move.start) s
  perform-R (complete id ok result rollback error_text now) s h =
      transact-Keeps order (complete_action-Keeps k id ok result rollback error_text now) s
  perform-R (revoke id admin_id now) s h =
      transact-Keeps order (transition_action-Keeps k _ _ _ _ _ _ _ _ Move.revoke_success) s
  perform-R (revoke_and_enqueue id admin_id cmd now) s h =
      transact-Keeps order (request_rollback_and_enqueue-Keeps k id admin_id cmd now) s
  perform-R (confirm_and_enqueue id admin_id cmd now) s h =
      transact-Keeps order (request_confirmation_and_enqueue-Keeps k id admin_id cmd now) s
  perform-R (expire_confirmations now) s h =
      transact-Keeps order (expire_action_confirmations-Keeps k now) s
  perform-R (end_revocation id ok details error_text now) s h =
      transact-Keeps order (complete_rollback-Keeps k id ok details error_text now) s
  perform-R (policy_action x cmd ban policy_actor) s h =
      transact-Keeps order (insert_enqueue-Keeps k x cmd ban policy_actor) s
  perform-R (limited_policy_action x cmd ban policy_actor max_per_hour since) s h =
      transact-Keeps order (create_limited-Keeps k x cmd ban policy_actor max_per_hour since) s
  perform-R (expire_commands now) s h = transact-Keeps order (expire_stale-Keeps k "" now) s
  perform-R (enqueue cmd fresh) s h = transact-Keeps order (enqueue_command-Keeps k cmd fresh) s
  perform-R (claim device_id limit now) s h =
      transact-Keeps order (claim_commands-Keeps k device_id limit now) s
  perform-R (finish effect device_id command_id now) s h =
      transact-Keeps order (complete_command_and_action-Keeps k effect device_id command_id now) s
  perform-R (give_up device_id details now) s h =
      transact-Keeps order (revoke_open_commands-Keeps k device_id details now) s
  perform-R (answer device_id command_id result error_text now) s h =
      transact-Keeps order (complete_command-Keeps k device_id command_id result error_text now) s
  perform-R (put_policy device_id p now) s h = h
  perform-R (set_grant g) s h = h
  perform-R (start device_id command_id now) s h = h

-- A relation that looks only at the actions is kept by all calls.
pub record OfActions (R : Relation) : Type 0 where
  pub order : Preorder R
  pub same_actions : (s t : Tables) → t.actions ≡ s.actions → R s t
  pub moves :
      (p : ActionRow → Bool) (f : ActionRow → ActionRow)
      → ((r : ActionRow) → p r ≡ true → Step r (f r))
      → (s : Tables) → R s (record s { actions = update_where p f s.actions })
  pub adds :
      (r : ActionRow)
      → Fresh r
      → (s : Tables) → find_action r.id s.actions ≡ none
      → R s (record s { actions = s.actions ++ r ∷ [] })

module _ {R : Relation} (o : OfActions R) where
  pub kept : KeptByActions R
  unfolding update_actions insert_action insert_command update_commands
  kept = record {
    order = o.order;
    quiet = λ s t q. o.same_actions s t q.actions;
    moves = λ p f h. record { at = λ s. o.moves p f h s };
    adds = λ r fresh. Keeps-constrained o.order _ _ _ (λ s h. o.adds r fresh s (ground arith));
    queues = λ c. Keeps-constrained o.order _ _ _ (λ s h. o.same_actions _ _ refl);
    ends = λ p f _ _ _ _ _. record { at = λ s. o.same_actions _ _ refl };
  }

  stores :
      (device_id : String) (p : DefensePolicy) (now : ℕ) → Keeps R (store_policy device_id p now)
  unfolding store_policy
  stores device_id p now = Keeps-constrained o.order _ _ _ (λ s h. o.same_actions _ _ refl)

  grants : (g : PolicyGrant) (mode : Mode) → Keeps R (store_grant g mode)
  unfolding store_grant
  grants g mode = Keeps-constrained o.order _ _ _ (λ s h. o.same_actions _ _ refl)

  starts : (c : CommandRow) (now : ℕ) → Keeps R (mark_started c now)
  unfolding mark_started update_commands
  starts c now =
      Keeps-bind o.order (record { at = λ s. o.same_actions _ _ refl })
        (λ n. Keeps-bind o.order (Keeps-require o.order _ _) (λ _. Keeps-pure o.order true))

  special : (c : Call) (s : Tables) → Special R s c
  unfolding perform transact
  special (put_policy device_id p now) s =
      transact-Keeps o.order (put_policy-Keeps kept device_id p now (stores device_id p now)) s
  special (set_grant g) s = transact-Keeps o.order (put_policy_grant-Keeps kept g (grants g)) s
  special (start device_id command_id now) s =
      transact-Ends o.order (start_action_command device_id command_id now) s
        (start_action_command-Ends kept device_id command_id now s (λ c _ _. starts c now))
  special (create x nonce_hash actor fresh d) s = tt
  special _ s = tt

  pub perform_all-R : (calls : List Call) (s : Tables) → R s (perform_all calls s)
  unfolding perform_all
  perform_all-R [] s = o.order.same s
  perform_all-R (c ∷ calls) s =
      o.order.then_ (perform-R kept c s (special c s)) (perform_all-R calls (perform c s))
