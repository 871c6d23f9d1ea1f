-- ===== src/Actions/Queue/Reached.antt =====
-- The primary key of the commands under the calls of the store, and what a claim delivers after any
-- calls (internal/store/reports_commands.go).
use witshield.Actions.PolicyGrants.{PolicyGrant, store_grant}
use mathlib.Core.Path.{subst}
use witshield.Base.{
  ℕ, ◌≤◌, String, Bool, true, ◌≡◌, refl, sym, ap, ◌∙◌, some, List, [], ◌∷◌, ◌++◌, All, length,
  str_eq, eq_iff, ◌||◌, arith,
}
use witshield.Defense.Correlator.{DefensePolicy}
use witshield.Actions.Tables.{Mode, CommandRow, Tables}
use witshield.Actions.Statement.{
  done, count_where, update_where, first_where, find_command, is_none, queued, update_commands,
  update_actions, insert_action, insert_command,
}
use witshield.Actions.Statement.Rules.{
  Preorder, Keeps, Keeps-pure, Keeps-require, Keeps-bind, Keeps-constrained, transact-Keeps,
  transact-Ends,
}
use witshield.Actions.Policy.{store_policy}
use witshield.Actions.Gate.{contains, mark_started, start_action_command}
use witshield.Actions.Expiry.{is_undelivered, is_unanswered}
use witshield.Actions.Expiry.Select.{ids}
use witshield.Actions.Queue.{claim_commands}
use witshield.Actions.Queue.Keyed.{Keyed}
use witshield.Actions.Queue.Delivery.{Delivered, claim_delivers}
use witshield.Actions.Calls.{set_grant, Call, perform, perform_all, put_policy, start, create}
use witshield.Actions.Lifecycle.{KeptByActions}
use witshield.Actions.Lifecycle.PolicyOperations.{
  put_policy_grant-Keeps, put_policy-Keeps, start_action_command-Ends,
}
use witshield.Actions.Lifecycle.Sequences.{Special, perform-R}

ids-update :
    (p : CommandRow → Bool) (f : CommandRow → CommandRow) (rows : List CommandRow)
    → ((c : CommandRow) → (f c).id ≡ c.id)
    → ids (update_where p f rows) ≡ ids rows
unfolding update_where
ids-update p f [] same = refl
ids-update p f (c ∷ rows) same = ground (arith, same c, ids-update p f rows same)

Keyed-ids : (xs ys : List CommandRow) → ids ys ≡ ids xs → Keyed xs → Keyed ys
Keyed-ids [] [] e k = tt
Keyed-ids [] (d ∷ ys) e k = cc
Keyed-ids (c ∷ xs) [] e k = tt
Keyed-ids (c ∷ xs) (d ∷ ys) e (alone, k) =
    let head : d.id ≡ c.id = ground arith in
    let tail : ids ys ≡ ids xs = ground arith in
    (ap (λ n. contains n (ids ys)) head ∙ ap (contains c.id) tail ∙ alone, Keyed-ids xs ys tail k)

contains-append :
    (name : String) (rows : List CommandRow) (c : CommandRow)
    → contains name (ids (rows ++ c ∷ [])) ≡ (contains name (ids rows) || str_eq c.id name)
unfolding contains
contains-append name [] c = ground arith
contains-append name (d ∷ rows) c = ground (arith, contains-append name rows c)

-- A row of a new id may be added at the end.
Keyed-append :
    (rows : List CommandRow) (c : CommandRow)
    → is_none (find_command c.id rows) ≡ true
    → Keyed rows
    → Keyed (rows ++ c ∷ [])
unfolding find_command first_where contains
Keyed-append [] c new k = (refl, tt)
Keyed-append (d ∷ rows) c new (alone, k) = (
  contains-append d.id rows c ∙ ground (arith, eq_iff c.id d.id, eq_iff d.id c.id),
  Keyed-append rows c (ground arith) k,
)

abbrev KeepsKey : Tables → Tables → Type 0
KeepsKey s t = Keyed s.commands → Keyed t.commands

order : Preorder KeepsKey
order = record { same = λ s k. k; then_ = λ f g k. g (f k) }

updates :
    (p : CommandRow → Bool) (f : CommandRow → CommandRow)
    → ((c : CommandRow) → (f c).id ≡ c.id)
    → Keeps KeepsKey (update_commands p f)
unfolding update_commands
updates p f same = record { at = λ s k. Keyed-ids s.commands _ (ids-update p f s.commands same) k }

kept : KeptByActions KeepsKey
unfolding update_actions insert_action insert_command queued
kept = record {
  order = order;
  quiet = λ s t q k. subst Keyed (sym q.commands) k;
  moves = λ p f h. record { at = λ s k. k };
  adds = λ r fresh. Keeps-constrained order _ _ _ (λ s h k. k);
  queues = λ c.
      Keeps-constrained order _ _ _ (λ s h k. Keyed-append s.commands (queued c) (ground arith) k);
  ends = λ p f same _ _ _ _. updates p f same;
}

stores :
    (device_id : String) (p : DefensePolicy) (now : ℕ)
    → Keeps KeepsKey (store_policy device_id p now)
unfolding store_policy
stores device_id p now = Keeps-constrained order _ _ _ (λ s h k. k)

grants : (g : PolicyGrant) (mode : Mode) → Keeps KeepsKey (store_grant g mode)
unfolding store_grant
grants g mode = Keeps-constrained order _ _ _ (λ s h k. k)

starts : (c : CommandRow) (now : ℕ) → Keeps KeepsKey (mark_started c now)
unfolding mark_started
starts c now =
    Keeps-bind order (updates _ (λ r. record r { started_at = some now }) (λ r. refl))
      (λ n. Keeps-bind order (Keeps-require order _ _) (λ _. Keeps-pure order true))

special : (c : Call) (s : Tables) → Special KeepsKey s c
unfolding perform
special (put_policy device_id p now) s =
    transact-Keeps order (put_policy-Keeps kept device_id p now (stores device_id p now)) s
special (set_grant g) s = transact-Keeps order (put_policy_grant-Keeps kept g (grants g)) s
special (start device_id command_id now) s =
    transact-Ends order (start_action_command device_id command_id now) s
      (start_action_command-Ends kept device_id command_id now s (λ c _ _. starts c now))
special (create x nonce_hash actor fresh d) s = tt
special _ s = tt

-- The ids of the commands stay different under any calls.
pub perform_all-Keyed : (calls : List Call) (s : Tables) → KeepsKey s (perform_all calls s)
unfolding perform_all
perform_all-Keyed [] s k = k
perform_all-Keyed (c ∷ calls) s k =
    perform_all-Keyed calls (perform c s) (perform-R kept c s (special c s) k)

-- Whatever calls were made on a store that started without commands, and where at most 500 commands are
-- stale in each way, a claim succeeds. It delivers at most twenty commands, each one open, of the
-- device, and claimed now; and no action command that has not started is delivered later than ten
-- minutes after it was created.
pub claims_deliver :
    (calls : List Call) (s₀ : Tables) (device_id : String) (limit now : ℕ)
    → s₀.commands ≡ []
    → count_where (is_undelivered device_id now) (perform_all calls s₀).commands ≤ 500
    → count_where (is_unanswered device_id now) (perform_all calls s₀).commands ≤ 500
    → (out : List CommandRow) × (t : Tables) × (claim_commands device_id limit now
          (perform_all calls s₀)
        ≡ done out t)
      × (length out ≤ 20)
      × All (Delivered device_id now) out
claims_deliver calls s₀ device_id limit now empty few few' =
    claim_delivers device_id limit now (perform_all calls s₀)
      (perform_all-Keyed calls s₀ (subst Keyed (sym empty) tt)) few few'
