-- ===== src/Outbox/Attempts.antt =====
-- How long the worker of a channel is at work: internal/httpapi/notification_worker.go with
-- internal/store/notification_outbox.go.
use witshield.Base.{
  none, refl, ℕ, ◌+◌, ◌-◌, ◌*◌, ◌≤◌, String, ◌≡◌, sym, ap, ◌∙◌, true, false, some, [], ◌∷◌,
  if◌then◌else◌, eq_iff, arith, ltb,
}
use witshield.Base.Dict.{lookup-insert, lookup, insert, Distinct}
use witshield.Actions.Statement.{count_where}
use witshield.Outbox.Leases.{
  canceled, clip, cancel, complete, is_time, Channel, Row, Table, NotificationDelivery, done,
  is_channel, is_pending, is_inflight, is_due, update_row, leased, claim, holds, end_lease,
  completed,
}
use witshield.Outbox.Leases.Exclusion.{claim-Claimed, first_row-stored, first_row-true}
use witshield.Outbox.Enqueue.{is_live, is_live_of, backlog}
use witshield.Outbox.Worker.{
  notification_retry_delay, Sent, send_with, Round, deliver_notification, record_sent,
  notification_delivery_lease,
}

-- The attempts that a row has left: one more than it may fail.
pub left : Row → ℕ
unfolding is_live
left r = if is_live r.status then (if ltb r.attempts 6 then 6 - r.attempts else 1) else 0

pub own : Channel → Row → ℕ
unfolding left
own channel r = if is_channel channel r.channel then left r else 0

-- The attempts that are left to the deliveries of a channel.
unfoldable pub attempts_left : Channel → Table → ℕ
unfolding own
attempts_left channel [] = 0
attempts_left channel ((id, r) ∷ table) = own channel r + attempts_left channel table

pub left-insert :
    (channel : Channel) (id : String) (r s : Row) (table : Table)
    → lookup id table ≡ some r
    → attempts_left channel (insert id s table) + own channel r
      ≡ attempts_left channel table + own channel s
unfolding lookup insert attempts_left
left-insert channel id r s [] h = ground (arith, h)
left-insert channel id r s ((k, t) ∷ table) h =
    ground (arith, h, eq_iff k id, left-insert channel id r s table)

pub left-backlog :
    (channel : Channel) (table : Table) → attempts_left channel table ≤ 6 * backlog channel table
unfolding attempts_left count_where own left is_live_of is_live
left-backlog channel [] = omega arith
left-backlog channel ((id, r) ∷ table) = ground (arith, left-backlog channel table)

-- The claim of a row, and the row that it leaves.
pub record Taken (channel : Channel) (now : ℕ) (table : Table) (d : NotificationDelivery)
    : Type 0 where
  pub row : Row
  pub stored : lookup d.id table ≡ some row
  pub due : is_due now row ≡ true
  pub of_channel : is_channel channel row.channel ≡ true
  pub attempts : d.attempts ≡ row.attempts + 1
  pub written :
      (claim channel now notification_delivery_lease table).0
      ≡ insert d.id (leased now (now + notification_delivery_lease) row) table
  pub until : d.lease_until ≡ now + notification_delivery_lease

pub claim-Taken :
    (channel : Channel) (now : ℕ) (table : Table) (d : NotificationDelivery)
    → Distinct table
    → (claim channel now notification_delivery_lease table).1 ≡ done d
    → Taken channel now table d
claim-Taken channel now table d distinct h =
    let c = claim-Claimed channel now notification_delivery_lease table h in
    let same : some c.row ≡ some c.seen =
      sym c.stored ∙ first_row-stored _ table distinct c.chosen in
    let met = first_row-true _ table c.chosen in
    record {
      row = c.row;
      stored = ap (λ x. lookup x table) (sym c.named) ∙ c.stored;
      due = c.due;
      of_channel = ground (arith, met, same);
      attempts = ground (arith, c.counted, same);
      written =
          sym c.written
          ∙ ap (λ x. insert x (leased now (now + notification_delivery_lease) c.row) table) c.named;
      until = c.until;
    }

pub end_lease-insert :
    (d : NotificationDelivery) (f : Row → Row) (table : Table) (r : Row)
    → lookup d.id table ≡ some r
    → holds d r ≡ true
    → (end_lease d f table).0 ≡ insert d.id (f r) table
unfolding end_lease update_row
end_lease-insert d f table r h k = ground (arith, h, k)

module _ (channel : Channel) (now : ℕ) (row : Row) (due : is_due now row ≡ true)
    (of_channel : is_channel channel row.channel ≡ true) (until : ℕ) where
  -- The row of an attempt that succeeds or is the last has none left; one that is tried again has one less.
  spent_ended : (r : Row) → is_live r.status ≡ false → own channel r + 1 ≤ own channel row
  unfolding own left is_live is_due is_pending is_inflight
  spent_ended r h = ground (arith, due, of_channel, h)

  spent_failed :
      (retry_at at max_attempts : ℕ) (text : String) (d : NotificationDelivery)
      → d.attempts ≡ row.attempts + 1
      → max_attempts ≤ 6
      → own channel (completed d false retry_at at max_attempts text (leased now until row)) + 1
        ≤ own channel row
  unfolding own left is_live is_due is_pending is_inflight completed
  spent_failed retry_at at max_attempts text d h k = ground (arith, due, of_channel, h, k)

module _ (channel : Channel) (now : ℕ) (d : NotificationDelivery) (table : Table)
    (taken : Taken channel now table d) where
  abbrev pub lease : Row
  lease = leased now (now + notification_delivery_lease) taken.row

  abbrev pub claimed : Table
  claimed = insert d.id lease table

  lease-held : holds d lease ≡ true
  unfolding holds is_inflight is_time
  lease-held = ground (arith, taken.attempts, taken.until)

  lease-stored : lookup d.id claimed ≡ some lease
  lease-stored = ground (arith, lookup-insert d.id d.id lease table, eq_iff d.id d.id)

  end_lease-left :
      (f : Row → Row)
      → own channel (f lease) + 1 ≤ own channel taken.row
      → attempts_left channel (end_lease d f claimed).0 + 1 ≤ attempts_left channel table
  end_lease-left f h = omega (
    arith,
    h,
    ap (attempts_left channel) (end_lease-insert d f claimed lease lease-stored lease-held),
    left-insert channel d.id lease (f lease) claimed lease-stored,
    left-insert channel d.id taken.row lease table taken.stored,
  )

  record_sent-left :
      (round : Round) (x : Sent)
      → attempts_left channel (record_sent round x d claimed).0 + 1 ≤ attempts_left channel table
  unfolding record_sent complete cancel
  record_sent-left round Sent.sent =
      let f = completed d true round.recorded_at round.recorded_at 6 "" in
      let over : is_live (f lease).status ≡ false = unfold is_live in unfold completed in refl in
      end_lease-left f
        (spent_ended channel now taken.row taken.due taken.of_channel 0 (f lease) over)
  record_sent-left round Sent.disabled =
      let f : Row → Row = λ r. record r {
        status = canceled;
        lease_until = none;
        last_error = clip "channel disabled by administrator";
        updated_at = round.recorded_at;
      } in
      let over : is_live (f lease).status ≡ false = unfold is_live in refl in
      end_lease-left f
        (spent_ended channel now taken.row taken.due taken.of_channel 0 (f lease) over)
  record_sent-left round (Sent.failed true text) = end_lease-left _ (
      spent_failed channel now taken.row taken.due taken.of_channel
        (now + notification_delivery_lease) _ _ 6 text d taken.attempts (omega arith))
  record_sent-left round (Sent.failed false text) =
      let f =
        completed d false (round.recorded_at + notification_retry_delay d.attempts)
          round.recorded_at d.attempts text in
      let over : is_live (f lease).status ≡ false =
        unfold is_live in unfold completed in ground arith in
      let ended =
        end_lease-left f
          (spent_ended channel now taken.row taken.due taken.of_channel 0 (f lease) over) in
      ground (arith, ended, taken.attempts)

  pub deliver-left :
      (round : Round)
      → round.cancelled ≡ false
      → attempts_left channel (deliver_notification round d claimed).0 + 1
        ≤ attempts_left channel table
  unfolding deliver_notification
  deliver-left round h =
      let sent = record_sent-left round (send_with round round.sender d) in ground (arith, h, sent)
