-- ===== src/Actions/Lifecycle/ApprovedOnce.antt =====
-- An approval is given once (internal/store/settings_actions_defense.go).
use witshield.Actions.Statement.Find.{updated}
use mathlib.Core.Path.{subst}
use witshield.Base.{
  not, ◌==◌, Bool-cases, ℕ, ◌+◌, ◌≤◌, String, Bool, true, false, ◌≡◌, ◌≢◌, sym, ap, ◌∙◌, ◌⊎◌, inl,
  inr, Option, some, List, str_eq, eq_iff, arith,
}
use witshield.Actions.Tables.{DeviceCommand, Tables, ActionRow, draft, eq_of_is_status}
use witshield.Actions.Statement.{
  Tx, insert_command, update_actions, insert_audit, fail, pure, require, ◌>>=◌, find_action,
  update_where, count_where, done, fault, conflict,
}
use witshield.Actions.Approval.{
  approve_action_and_enqueue, mark_incident_responding_for_action_tx, found, action, approved_row,
  approve_action, is_approvable, action_approval_ttl,
}
use witshield.Actions.Statement.Rules.{Relation, Keeps-bind, Keeps-done}
use witshield.Actions.Lifecycle.Operations.{Keeps-audit, action-Keeps, mark_incident-Keeps}
use witshield.Actions.Calls.{Call, perform_all}
use witshield.Actions.Lifecycle.{approve, move, Evolves, here, next}
use witshield.Actions.Lifecycle.Rows.{approved_row-Step}
use witshield.Actions.Lifecycle.Sequences.{kept, OfActions, perform_all-R}
use witshield.Actions.Lifecycle.Course.{
  Course, Course-kept, Later, Later-some, calls-Evolves, find_action-update,
}
use witshield.Actions.Lifecycle.Unique.{Unique, Unique-kept, count-find, count-eq-zero}
use witshield.Actions.Lifecycle.Approved.{Move-from}

Evolves-stays : {r t : ActionRow} → Evolves r t → r.status ≢ draft → t.status ≢ draft
Evolves-stays here h = h
Evolves-stays (next e (approve _ _ to _)) h = λ d. cc
Evolves-stays (next e (move _ _ _ from to m)) h = λ d. (Move-from m).0 (sym to ∙ d)

is_approvable-id :
    (id nonce_hash : String) (now : ℕ) (r : ActionRow)
    → is_approvable id nonce_hash now r ≡ true
    → str_eq r.id id ≡ true
unfolding is_approvable
is_approvable-id id nonce_hash now r h = ground arith

is_approvable-draft :
    (id nonce_hash : String) (now : ℕ) (r : ActionRow)
    → is_approvable id nonce_hash now r ≡ true
    → (r.status ≡ draft)
      × (r.approval_nonce_hash ≡ nonce_hash)
      × (now ≤ r.created_at + action_approval_ttl)
unfolding is_approvable
is_approvable-draft id nonce_hash now r h =
    ground (arith, eq_of_is_status r.status draft, eq_iff r.approval_nonce_hash nonce_hash)

not_approvable :
    (id nonce_hash : String) (now : ℕ) (r : ActionRow)
    → r.status ≢ draft
    → is_approvable id nonce_hash now r ≡ false
not_approvable id nonce_hash now r h = elim (Bool-cases (is_approvable id nonce_hash now r)) [
  | inl e ↦ absurd (h (is_approvable-draft id nonce_hash now r e).0)
  | inr e ↦ e
]

approval-inv :
    {A : Type 0} (p : ActionRow → Bool) (f : ActionRow → ActionRow) (m : Tx A) (s : Tables) {r : A}
    {t : Tables}
    → (update_actions p f >>= λ n. require (not (n == 0)) conflict >>= λ _. m) s ≡ done r t
    → (count_where p s.actions ≢ 0)
      × (m (record s { actions = update_where p f s.actions }) ≡ done r t)
unfolding ◌>>=◌ update_actions require pure fail
approval-inv p f m s h = (λ e. ground arith, ground arith)

approved_row-past :
    (admin_id : String) (now : ℕ) (q : ActionRow) → (approved_row admin_id now q).status ≢ draft
unfolding approved_row
approved_row-past admin_id now q = λ e. cc

same-draft :
    {o : Option ActionRow} {x y : ActionRow}
    → o ≡ some x
    → o ≡ some y
    → y.status ≡ draft
    → x.status ≡ draft
same-draft e f d = ground arith

refused :
    (id nonce_hash admin_id : String) (now : ℕ) (s : Tables)
    → count_where (is_approvable id nonce_hash now) s.actions ≡ 0
    → approve_action id nonce_hash admin_id now s ≡ fault conflict
unfolding approve_action ◌>>=◌ update_actions require fail
refused id nonce_hash admin_id now s h = ground arith

refused_enqueue :
    (id nonce_hash admin_id : String) (cmd : DeviceCommand) (now : ℕ) (s : Tables)
    → count_where (is_approvable id nonce_hash now) s.actions ≡ 0
    → approve_action_and_enqueue id nonce_hash admin_id cmd now s ≡ fault conflict
unfolding approve_action_and_enqueue ◌>>=◌ update_actions require fail
refused_enqueue id nonce_hash admin_id cmd now s h = ground arith

-- What has been approved: a draft, under its nonce and in time.
abbrev pub WasDraft : String → String → ℕ → Tables → Type 0
WasDraft id nonce_hash now s =
    (q : ActionRow) × (find_action id s.actions ≡ some q)
    × (q.status ≡ draft)
    × (q.approval_nonce_hash ≡ nonce_hash)
    × (now ≤ q.created_at + action_approval_ttl)

module _ (id nonce_hash admin_id : String) (now : ℕ) (s t : Tables) where
  abbrev due : ActionRow → Bool
  due = is_approvable id nonce_hash now

  -- The tables after the first statement of an approval.
  abbrev marked : Tables
  marked = record s { actions = update_where due (approved_row admin_id now) s.actions }

  -- How the tables after the rest of an approval follow from these.
  record Rest (n : ℕ) : Type 0 where
    counted : n ≢ 0
    course : Course marked t
    unique : Unique marked.actions → Unique t.actions

  approved-Rest :
      {r : ActionRow}
      → approve_action id nonce_hash admin_id now s ≡ done r t
      → Rest (count_where due s.actions)
  unfolding approve_action
  approved-Rest h =
      let (some_row, rest) = approval-inv due (approved_row admin_id now) _ s h in
      record {
        counted = some_row;
        course = keeps Course-kept rest;
        unique = keeps Unique-kept rest;
      }
    where
      keeps :
          {R : Relation} {r : ActionRow}
          → OfActions R
          → (insert_audit id admin_id "approved" "{}" now >>= λ _. action id) marked ≡ done r t
          → R marked t
      keeps o rest =
          Keeps-done
            (Keeps-bind o.order (Keeps-audit (kept o) _ _ _ _ _) (λ _. action-Keeps (kept o) id))
            rest

  enqueued-Rest :
      {r : ActionRow} (cmd : DeviceCommand)
      → approve_action_and_enqueue id nonce_hash admin_id cmd now s ≡ done r t
      → Rest (count_where due s.actions)
  unfolding approve_action_and_enqueue
  enqueued-Rest cmd h =
      let (some_row, rest) = approval-inv due (approved_row admin_id now) _ s h in
      record {
        counted = some_row;
        course = keeps Course-kept rest;
        unique = keeps Unique-kept rest;
      }
    where
      keeps :
          {R : Relation} {r : ActionRow}
          → OfActions R
          → (insert_command cmd >>= λ _.
                insert_audit id admin_id "approved_and_queued" "{}" now >>= λ _.
                mark_incident_responding_for_action_tx id admin_id now >>= λ _. action id)
              marked
            ≡ done r t
          → R marked t
      keeps o rest =
          let k = kept o in
          Keeps-done
            (Keeps-bind o.order (k.queues cmd) (λ _.
              Keeps-bind o.order (Keeps-audit k _ _ _ _ _) (λ _.
                Keeps-bind o.order (mark_incident-Keeps k id admin_id now)
                  (λ _. action-Keeps k id))))
            rest

  module _ (calls : List Call) (u : Unique s.actions)
      (rest : Rest (count_where due s.actions)) where
    approved_past :
        WasDraft id nonce_hash now s
        × ((later : ActionRow) × (find_action id (perform_all calls t).actions ≡ some later)
            × (later.status ≢ draft))
    approved_past =
        let (q, found, holds) =
          count-find id due (is_approvable-id id nonce_hash now) s.actions u rest.counted in
        let read_back : find_action id marked.actions ≡ some (approved_row admin_id now q) =
          find_action-update id due (approved_row admin_id now) s.actions
            (approved_row-Step id nonce_hash admin_id now)
          ∙ ap (updated due (approved_row admin_id now)) found
          ∙ ground arith in
        let (x, there, steps) =
          Later-some (find_action id t.actions)
            (subst (λ o. Later o (find_action id t.actions)) read_back (rest.course id)) in
        let (later, still, more, _) = calls-Evolves calls t id x there in
        let (draft_q, nonce_q, early) = is_approvable-draft id nonce_hash now q holds in
        (
          (q, found, draft_q, nonce_q, early),
          (
            later,
            still,
            Evolves-stays more (Evolves-stays steps (approved_row-past admin_id now q)),
          ),
        )

    none_due :
        (nonce' : String) (now' : ℕ)
        → count_where (is_approvable id nonce' now') (perform_all calls t).actions ≡ 0
    none_due nonce' now' =
        let (_, (later, still, past)) = approved_past in
        let unique_t : Unique t.actions =
          rest.unique (Unique-kept.moves _ _ (approved_row-Step id nonce_hash admin_id now) s u) in
        count-eq-zero id (is_approvable id nonce' now') (is_approvable-id id nonce' now')
          (perform_all calls t).actions (perform_all-R Unique-kept calls t unique_t)
          (λ x e. not_approvable id nonce' now' x (λ d. past (same-draft still e d)))

-- Where the ids of the actions are different, an approval that succeeds, with or without its command,
-- was of a draft, under the nonce that was issued for it and within ten minutes; and whatever calls
-- of Calls follow, no further approval of the action succeeds, with or without a command: it is a
-- conflict.
pub approve_once :
    (id nonce_hash admin_id : String) (cmd : DeviceCommand) (now : ℕ) (s t : Tables) (r : ActionRow)
    (calls : List Call)
    → Unique s.actions
    → (approve_action_and_enqueue id nonce_hash admin_id cmd now s ≡ done r t)
      ⊎ (approve_action id nonce_hash admin_id now s ≡ done r t)
    → WasDraft id nonce_hash now s
      × ((nonce' admin' : String) (cmd' : DeviceCommand) (now' : ℕ)
          → (approve_action_and_enqueue id nonce' admin' cmd' now' (perform_all calls t)
              ≡ fault conflict)
            × (approve_action id nonce' admin' now' (perform_all calls t) ≡ fault conflict))
approve_once id nonce_hash admin_id cmd now s t r calls u h =
    let rest : Rest id nonce_hash admin_id now s t
        (count_where (is_approvable id nonce_hash now) s.actions) =
      elim h [
        | inl e ↦ enqueued-Rest id nonce_hash admin_id now s t cmd e
        | inr e ↦ approved-Rest id nonce_hash admin_id now s t e
      ] in
    (
      (approved_past id nonce_hash admin_id now s t calls u rest).0,
      λ nonce' admin' cmd' now'.
          let zero_due = none_due id nonce_hash admin_id now s t calls u rest nonce' now' in
          (
            refused_enqueue id nonce' admin' cmd' now' (perform_all calls t) zero_due,
            refused id nonce' admin' now' (perform_all calls t) zero_due,
          ),
    )
