-- ===== src/Outbox/Keys.antt =====
-- The ids of the outbox are distinct after any calls (internal/store/notification_outbox.go).
use witshield.Base.{
  ℕ, zero, suc, ◌-◌, ◌+◌, String, ◌≡◌, refl, inl, inr, Bool, false, ◌&&◌, none, List, [], ◌∷◌, ◌++◌,
  str_eq, eq_iff, Option-cases, arith,
}
use witshield.Base.Dict.{lookup, Distinct, insert-Distinct}
use witshield.Actions.Statement.{count_where}
use witshield.Events.Trim.{keep_first, remove_times, remove_last}
use witshield.Outbox.Leases.{
  Channel, Row, Table, NotificationDelivery, is_channel, is_pending, is_due, update_row, leased,
  claim, holds, end_lease, completed, complete, cancel, release, update_all, withdrawn,
  cancel_pending, prune, first_row,
}
use witshield.Outbox.Leases.Held.{
  Step, claims, completes, cancels, releases, cancels_channel, prunes, enqueues, step, steps,
}
use witshield.Outbox.Enqueue.{
  Keyed, Wire, NotificationEvent, is_terminal_of, is_replaceable, is_staler, is_earlier,
  insert_or_ignore, dropped_row, new_row, backlog, replace_reports, add_delivery, enqueue_channel,
}
use witshield.Outbox.Rules.{enqueue_keeps}

module _ (p : Keyed → Bool) (less : Keyed → Keyed → Bool) where
  remove_last-absent :
      (k : String) (table : Table)
      → lookup k table ≡ none
      → lookup k (remove_last p less table) ≡ none
  unfolding remove_last lookup
  remove_last-absent k [] h = h
  remove_last-absent k ((id, r) ∷ table) h = ground (arith, h, remove_last-absent k table)

  remove_last-Distinct : (table : Table) → Distinct table → Distinct (remove_last p less table)
  unfolding remove_last
  remove_last-Distinct [] d = d
  remove_last-Distinct ((id, r) ∷ table) d =
      ground (arith, d, remove_last-absent id table, remove_last-Distinct table)

  remove_times-Distinct :
      (n : ℕ) (table : Table) → Distinct table → Distinct (remove_times p n less table)
  unfolding remove_times
  remove_times-Distinct zero table d = d
  remove_times-Distinct (suc n) table d =
      remove_times-Distinct n (remove_last p less table) (remove_last-Distinct table d)

lookup-absent_append :
    (k id : String) (r : Row) (table : Table)
    → lookup k table ≡ none
    → str_eq id k ≡ false
    → lookup k (table ++ (id, r) ∷ []) ≡ none
unfolding lookup
lookup-absent_append k id r [] h n = ground (arith, n)
lookup-absent_append k id r ((other, s) ∷ table) h n =
    ground (arith, h, lookup-absent_append k id r table)

append-Distinct :
    (id : String) (r : Row) (table : Table)
    → lookup id table ≡ none
    → Distinct table
    → Distinct (table ++ (id, r) ∷ [])
unfolding lookup
append-Distinct id r [] h d = (refl, tt)
append-Distinct id r ((other, s) ∷ table) h d = ground (
  arith,
  h,
  d,
  eq_iff id other,
  eq_iff other id,
  lookup-absent_append other id r table,
  append-Distinct id r table,
)

insert_or_ignore-Distinct :
    (id : String) (r : Row) (table : Table)
    → Distinct table
    → Distinct (insert_or_ignore id r table).0
unfolding insert_or_ignore
insert_or_ignore-Distinct id r table d = elim (Option-cases (lookup id table)) [
  | inr (_, e) ↦ ground (arith, e, d)
  | inl e ↦ ground (arith, e, d, append-Distinct id r table e d)
]

update_row-Distinct :
    (id : String) (w : Row → Bool) (f : Row → Row) (table : Table)
    → Distinct table
    → Distinct (update_row id w f table).0
unfolding update_row
update_row-Distinct id w f table d = elim (Option-cases (lookup id table)) [
  | inl e ↦ ground (arith, e, d)
  | inr (r, e) ↦ ground (arith, e, d, insert-Distinct id (f r) table d)
]

pub claim-Distinct :
    (channel : Channel) (now lease : ℕ) (table : Table)
    → Distinct table
    → Distinct (claim channel now lease table).0
unfolding claim
claim-Distinct channel now lease table d =
    elim (Option-cases (first_row (λ r. is_channel channel r.channel && is_due now r) table)) [
      | inl e ↦ ground (arith, e, d)
      | inr ((id, r), e) ↦
          ground
            (arith, e, d, update_row-Distinct id (is_due now) (leased now (now + lease)) table d)
    ]

pub end_lease-Distinct :
    (e : NotificationDelivery) (f : Row → Row) (table : Table)
    → Distinct table
    → Distinct (end_lease e f table).0
unfolding end_lease
end_lease-Distinct e f table d =
    let kept = update_row-Distinct e.id (holds e) f table d in ground (arith, kept)

update_all-absent :
    (w : Row → Bool) (f : Row → Row) (k : String) (table : Table)
    → lookup k table ≡ none
    → lookup k (update_all w f table) ≡ none
unfolding update_all lookup
update_all-absent w f k [] h = h
update_all-absent w f k ((id, r) ∷ table) h = ground (arith, h, update_all-absent w f k table)

update_all-Distinct :
    (w : Row → Bool) (f : Row → Row) (table : Table)
    → Distinct table
    → Distinct (update_all w f table)
unfolding update_all
update_all-Distinct w f [] d = d
update_all-Distinct w f ((id, r) ∷ table) d =
    (update_all-absent w f id table d.0, update_all-Distinct w f table d.1)

prune-absent :
    (before : ℕ) (k : String) (table : Table)
    → lookup k table ≡ none
    → lookup k (prune before table) ≡ none
unfolding prune lookup
prune-absent before k [] h = h
prune-absent before k ((id, r) ∷ table) h = ground (arith, h, prune-absent before k table)

prune-Distinct : (before : ℕ) (table : Table) → Distinct table → Distinct (prune before table)
unfolding prune
prune-Distinct before [] d = d
prune-Distinct before ((id, r) ∷ table) d =
    ground (arith, d, prune-absent before id table, prune-Distinct before table)

replace_reports-Distinct :
    (w : Wire) (event : NotificationEvent) (channel : Channel) (table : Table)
    → Distinct table
    → Distinct (replace_reports w event channel table)
unfolding replace_reports
replace_reports-Distinct w event channel table d =
    let removed =
      remove_times-Distinct (is_replaceable w channel event.device_id) is_earlier
        (backlog channel table - 5000 + 1) table d in
    ground (arith, d, removed)

add_delivery-Distinct :
    (id : String) (r : Row) (table : Table) → Distinct table → Distinct (add_delivery id r table).0
unfolding add_delivery
add_delivery-Distinct id r table d =
    let added = insert_or_ignore-Distinct id r table d in
    let dropped = insert_or_ignore-Distinct id (dropped_row r) table d in
    ground (arith, added, dropped)

enqueue_channel-Distinct :
    (w : Wire) (event : NotificationEvent) (id : String) (r : Row) (table : Table)
    → Distinct table
    → Distinct (enqueue_channel w event id r table).0
unfolding enqueue_channel keep_first
enqueue_channel-Distinct w event id r table d =
    let p = is_terminal_of r.channel in
    let kept = keep_first p 10000 is_staler table in
    add_delivery-Distinct id r (replace_reports w event r.channel kept) (
      replace_reports-Distinct w event r.channel kept
        (remove_times-Distinct p is_staler (count_where p table - 10000) table d))

pub complete-Distinct :
    (e : NotificationDelivery) (delivered : Bool) (retry_at now max_attempts : ℕ) (text : String)
    (table : Table)
    → Distinct table
    → Distinct (complete e delivered retry_at now max_attempts text table).0
unfolding complete
complete-Distinct e delivered retry_at now max_attempts text table d =
    let ended =
      end_lease-Distinct e (completed e delivered retry_at now max_attempts text) table d in
    ground (arith, d, ended)

cancel_pending-Distinct :
    (channel : Channel) (reason : String) (now : ℕ) (table : Table)
    → Distinct table
    → Distinct (cancel_pending channel reason now table).0
unfolding cancel_pending
cancel_pending-Distinct channel reason now table d =
    let all =
      update_all-Distinct (λ r. is_channel channel r.channel && is_pending r.status)
        (withdrawn reason now) table d in
    ground (arith, d, all)

step-Distinct : (s : Step) (table : Table) → Distinct table → Distinct (step s table)
unfolding step cancel release
step-Distinct (claims channel now lease) table d = claim-Distinct channel now lease table d
step-Distinct (completes e delivered retry_at now max_attempts text) table d =
    complete-Distinct e delivered retry_at now max_attempts text table d
step-Distinct (cancels e reason now) table d = end_lease-Distinct e _ table d
step-Distinct (releases e now) table d = end_lease-Distinct e _ table d
step-Distinct (cancels_channel channel reason now) table d =
    cancel_pending-Distinct channel reason now table d
step-Distinct (prunes before) table d = prune-Distinct before table d
step-Distinct (enqueues w event settings webhook_id smtp_id webhook_first now) table d =
    enqueue_keeps Distinct
      (λ w event id channel payload version now t k.
        enqueue_channel-Distinct w event id (new_row event channel payload version now) t k)
      w event settings webhook_id smtp_id webhook_first now table d

pub steps-Distinct : (ss : List Step) (table : Table) → Distinct table → Distinct (steps ss table)
unfolding steps
steps-Distinct [] table d = d
steps-Distinct (s ∷ ss) table d = steps-Distinct ss (step s table) (step-Distinct s table d)
