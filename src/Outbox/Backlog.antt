-- ===== src/Outbox/Backlog.antt =====
-- How much waits for a channel (internal/store/notification_outbox.go).
use witshield.Base.{
  ℕ, ◌+◌, ◌-◌, ◌≤◌, String, ◌≡◌, refl, ap, inl, inr, Bool, true, false, ◌&&◌, some, List, [], ◌∷◌,
  if◌then◌else◌, eq_iff, Option-cases, arith,
}
use witshield.Base.Dict.{lookup, insert}
use witshield.Actions.Statement.{count_where}
use witshield.Events.Trim.{keep_first, count-keep_first_mono, count-remove_times_mono}
use witshield.Events.Counts.{count-append}
use witshield.Outbox.Leases.{
  Channel, webhook, smtp, other_channel, Row, Table, NotificationDelivery, is_channel, is_pending,
  is_due, update_row, leased, claim, holds, end_lease, completed, complete, cancel, release,
  update_all, withdrawn, cancel_pending, prune, first_row,
}
use witshield.Outbox.Leases.Held.{
  Step, claims, completes, cancels, releases, cancels_channel, prunes, enqueues, step, steps,
}
use witshield.Outbox.Enqueue.{
  Keyed, Wire, NotificationEvent, is_live, is_live_of, is_terminal_of, is_replaceable, is_staler,
  is_earlier, insert_or_ignore, dropped_row, new_row, backlog, replace_reports, add_delivery,
  enqueue_channel,
}
use witshield.Outbox.Rules.{enqueue_keeps}

-- An update of one row changes the count by that row.
pub count-insert :
    (q : Keyed → Bool) (id : String) (r s : Row) (table : Table)
    → lookup id table ≡ some r
    → count_where q (insert id s table) + (if q (id, r) then 1 else 0)
      ≡ count_where q table + (if q (id, s) then 1 else 0)
unfolding lookup insert count_where
count-insert q id r s [] h = ground (arith, h)
count-insert q id r s ((k, t) ∷ table) h =
    ground (arith, h, eq_iff k id, count-insert q id r s table)

update_row-backlog :
    (c : Channel) (id : String) (w : Row → Bool) (f : Row → Row) (table : Table)
    → ((r : Row) → w r ≡ true → is_live_of c (id, f r) ≡ true → is_live_of c (id, r) ≡ true)
    → backlog c (update_row id w f table).0 ≤ backlog c table
unfolding update_row
update_row-backlog c id w f table h = elim (Option-cases (lookup id table)) [
  | inl e ↦ ground (arith, e)
  | inr (r, e) ↦ ground (arith, e, h r, count-insert (is_live_of c) id r (f r) table e)
]

claim-backlog :
    (c channel : Channel) (now lease : ℕ) (table : Table)
    → backlog c (claim channel now lease table).0 ≤ backlog c table
unfolding claim
claim-backlog c channel now lease table =
    elim (Option-cases (first_row (λ r. is_channel channel r.channel && is_due now r) table)) [
      | inl e ↦ ground (arith, e)
      | inr ((id, r), e) ↦ ground (
        arith,
        e,
        update_row-backlog c id (is_due now) (leased now (now + lease)) table
            (λ s due live. unfold is_live_of in unfold is_due in unfold is_live in ground arith),
      )
    ]

end_lease-backlog :
    (c : Channel) (d : NotificationDelivery) (f : Row → Row) (table : Table)
    → ((r : Row) → (f r).channel ≡ r.channel)
    → backlog c (end_lease d f table).0 ≤ backlog c table
unfolding end_lease
end_lease-backlog c d f table same =
    let h = update_row-backlog c d.id (holds d) f table (λ r held live.
      unfold is_live_of in unfold is_live in unfold holds in ground (arith, same r)) in
    ground (arith, h)

update_all-backlog :
    (c : Channel) (w : Row → Bool) (f : Row → Row) (table : Table)
    → ((id : String) (r : Row) → is_live_of c (id, f r) ≡ true → is_live_of c (id, r) ≡ true)
    → backlog c (update_all w f table) ≤ backlog c table
unfolding update_all count_where
update_all-backlog c w f [] h = omega arith
update_all-backlog c w f ((id, r) ∷ table) h =
    ground (arith, h id r, update_all-backlog c w f table h)

prune-backlog :
    (c : Channel) (before : ℕ) (table : Table) → backlog c (prune before table) ≤ backlog c table
unfolding prune count_where
prune-backlog c before [] = omega arith
prune-backlog c before ((id, r) ∷ table) = ground (arith, prune-backlog c before table)

replace_reports-backlog :
    (c : Channel) (w : Wire) (event : NotificationEvent) (channel : Channel) (table : Table)
    → backlog c (replace_reports w event channel table) ≤ backlog c table
unfolding replace_reports
replace_reports-backlog c w event channel table =
    let p = is_replaceable w channel event.device_id in
    ground (
      arith,
      count-remove_times_mono p (is_live_of c) (backlog channel table - 5000 + 1) is_earlier table,
    )

is_channel-eq : (c d : Channel) → is_channel c d ≡ true → c ≡ d
unfolding is_channel
is_channel-eq webhook webhook h = refl
is_channel-eq smtp smtp h = refl
is_channel-eq (other_channel s) (other_channel t) h = ap other_channel ((eq_iff s t).0 h)
is_channel-eq webhook smtp h = cc
is_channel-eq webhook (other_channel _) h = cc
is_channel-eq smtp webhook h = cc
is_channel-eq smtp (other_channel _) h = cc
is_channel-eq (other_channel _) webhook h = cc
is_channel-eq (other_channel _) smtp h = cc

insert_or_ignore-backlog :
    (c : Channel) (id : String) (r : Row) (table : Table)
    → backlog c (insert_or_ignore id r table).0
      ≤ backlog c table + (if is_live_of c (id, r) then 1 else 0)
unfolding insert_or_ignore
insert_or_ignore-backlog c id r table = ground (arith, count-append (is_live_of c) table (id, r))

add_delivery-backlog :
    (c : Channel) (id : String) (r : Row) (table : Table)
    → backlog c table ≤ 5000
    → backlog c (add_delivery id r table).0 ≤ 5000
unfolding add_delivery
add_delivery-backlog c id r table h =
    let added = insert_or_ignore-backlog c id r table in
    let dropped = insert_or_ignore-backlog c id (dropped_row r) table in
    let dead : is_live_of c (id, dropped_row r) ≡ false =
      unfold is_live_of in unfold is_live in unfold dropped_row in ground arith in
    let own : is_live_of c (id, r) ≡ true → backlog c table ≡ backlog r.channel table = λ live.
      ap (λ x. backlog x table) (is_channel-eq c r.channel (unfold is_live_of in ground arith)) in
    ground (arith, h, added, dropped, dead, own)

enqueue_channel-backlog :
    (c : Channel) (w : Wire) (event : NotificationEvent) (id : String) (r : Row) (table : Table)
    → backlog c table ≤ 5000
    → backlog c (enqueue_channel w event id r table).0 ≤ 5000
unfolding enqueue_channel
enqueue_channel-backlog c w event id r table h =
    let p = is_terminal_of r.channel in
    let kept = keep_first p 10000 is_staler table in
    add_delivery-backlog c id r (replace_reports w event r.channel kept) (
      omega (
        arith,
        h,
        replace_reports-backlog c w event r.channel kept,
        count-keep_first_mono p (is_live_of c) 10000 is_staler table,
      ))

ended-backlog :
    (c : Channel) (d : NotificationDelivery) (f : Row → Row) (table : Table)
    → ((r : Row) → (f r).channel ≡ r.channel)
    → backlog c table ≤ 5000
    → backlog c (end_lease d f table).0 ≤ 5000
ended-backlog c d f table same h = omega (arith, h, end_lease-backlog c d f table same)

completed-channel :
    (d : NotificationDelivery) (delivered : Bool) (retry_at now max_attempts : ℕ) (text : String)
    (r : Row)
    → (completed d delivered retry_at now max_attempts text r).channel ≡ r.channel
unfolding completed
completed-channel d true retry_at now max_attempts text r = refl
completed-channel d false retry_at now max_attempts text r = refl

cancel_pending-backlog :
    (c channel : Channel) (reason : String) (now : ℕ) (table : Table)
    → backlog c (cancel_pending channel reason now table).0 ≤ backlog c table
unfolding cancel_pending
cancel_pending-backlog c channel reason now table =
    let all =
      update_all-backlog c (λ r. is_channel channel r.channel && is_pending r.status)
        (withdrawn reason now) table
        (λ id r live. unfold is_live_of in unfold is_live in ground arith) in
    ground (arith, all)

step-backlog :
    (c : Channel) (s : Step) (table : Table)
    → backlog c table ≤ 5000
    → backlog c (step s table) ≤ 5000
unfolding step complete cancel release
step-backlog c (claims channel now lease) table h =
    omega (arith, h, claim-backlog c channel now lease table)
step-backlog c (completes d delivered retry_at now max_attempts last_error) table h =
    let ended =
      end_lease-backlog c d (completed d delivered retry_at now max_attempts last_error) table
        (completed-channel d delivered retry_at now max_attempts last_error) in
    ground (arith, h, ended)
step-backlog c (cancels d reason now) table h = ended-backlog c d _ table (λ r. refl) h
step-backlog c (releases d now) table h = ended-backlog c d _ table (λ r. refl) h
step-backlog c (cancels_channel channel reason now) table h =
    omega (arith, h, cancel_pending-backlog c channel reason now table)
step-backlog c (prunes before) table h = omega (arith, h, prune-backlog c before table)
step-backlog c (enqueues w event settings webhook_id smtp_id webhook_first now) table h =
    enqueue_keeps (λ t. backlog c t ≤ 5000)
      (λ w event id channel payload version now t k.
        enqueue_channel-backlog c w event id (new_row event channel payload version now) t k)
      w event settings webhook_id smtp_id webhook_first now table h

steps-backlog :
    (ss : List Step) (c : Channel) (table : Table)
    → backlog c table ≤ 5000
    → backlog c (steps ss table) ≤ 5000
unfolding steps
steps-backlog [] c table h = h
steps-backlog (s ∷ ss) c table h = steps-backlog ss c (step s table) (step-backlog c s table h)

-- After any steps from an empty outbox, at most 5000 deliveries of a channel wait or are under way.
pub backlog_bounded : (ss : List Step) (c : Channel) → backlog c (steps ss []) ≤ 5000
backlog_bounded ss c = steps-backlog ss c [] (unfold count_where in omega arith)
