-- ===== src/Outbox/Worker.antt =====
-- The worker of a channel, internal/httpapi/notification_worker.go: it claims a delivery, sends it, and
-- records how that ended. A transport stands for internal/notification, which sends.
use witshield.Base.{ℕ, ◌+◌, ◌*◌, String, Bool, true, false, List, [], ◌∷◌, ltb, ◌==◌, if◌then◌else◌}
use witshield.Defense.Correlator.{second}
use witshield.Outbox.Leases.{
  Channel, Table, NotificationDelivery, Answer, done, claim, complete, cancel, release,
}

abbrev pub notification_max_attempts : ℕ
notification_max_attempts = 6

abbrev pub notification_delivery_lease : ℕ
notification_delivery_lease = 60 * second

-- How a message went: sent, refused as its channel is disabled, or failed with a text, perhaps for good.
pub data Sent : Type 0 where
  sent disabled : Sent
  failed : Bool → String → Sent

-- `notificationSender`: the settings of the time, if there are any that can be used.
pub data Sender : Type 0 where
  missing unavailable : Sender
  ready : ℕ → Sender

-- What the worker meets in one round: the clock, the settings, the transport, and its own end.
pub record Round : Type 0 where
  pub claimed_at : ℕ
  pub sender : Sender
  pub send : NotificationDelivery → Sent
  pub recorded_at : ℕ
  pub cancelled : Bool

-- `notificationRetryDelay`
unfoldable pub notification_retry_delay : ℕ → ℕ
notification_retry_delay attempt =
    if ltb attempt 2
    then 5 * second
    else if attempt == 2
    then 30 * second
    else if attempt == 3
    then 120 * second
    else if attempt == 4
    then 600 * second
    else 1800 * second

module _ (round : Round) where
  unfoldable pub record_sent : Sent → NotificationDelivery → Table → Table × Answer (Unit {0})
  unfolding notification_retry_delay
  record_sent sent d =
      complete d true round.recorded_at round.recorded_at notification_max_attempts ""
  record_sent disabled d = cancel d "channel disabled by administrator" round.recorded_at
  record_sent (failed retryable text) d =
      complete d false (round.recorded_at + notification_retry_delay d.attempts) round.recorded_at
        (if retryable then notification_max_attempts else d.attempts) text

  -- A delivery of other settings than those of now counts as disabled.
  unfoldable pub send_with : Sender → NotificationDelivery → Sent
  send_with missing d = disabled
  send_with unavailable d = failed true "notification configuration unavailable"
  send_with (ready updated_at) d =
      if updated_at == d.settings_updated_at then round.send d else disabled

  -- `deliverNotification`
  unfoldable pub deliver_notification : NotificationDelivery → Table → Table × Answer (Unit {0})
  unfolding record_sent send_with
  deliver_notification d =
      if round.cancelled
      then release d round.recorded_at
      else record_sent (send_with round.sender d) d

  unfoldable pub deliver_claimed : Table × Answer NotificationDelivery → Table × Bool
  unfolding deliver_notification
  deliver_claimed (table, done d) = ((deliver_notification d table).0, true)
  deliver_claimed (table, _) = (table, false)

  -- One turn of `runNotificationChannel`, and whether there was a delivery.
  unfoldable pub run_round : Channel → Table → Table × Bool
  unfolding deliver_claimed
  run_round channel table =
      deliver_claimed (claim channel round.claimed_at notification_delivery_lease table)

-- `runNotificationChannel` over the rounds, and the number of deliveries that it tried.
unfoldable pub run_notification_channel : Channel → List Round → Table → Table × ℕ
unfolding run_round
run_notification_channel channel [] table = (table, 0)
run_notification_channel channel (round ∷ rounds) table =
    let (later, tried) =
      run_notification_channel channel rounds (run_round round channel table).0 in
    (later, (if (run_round round channel table).1 then 1 else 0) + tried)
