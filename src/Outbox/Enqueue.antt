-- ===== src/Outbox/Enqueue.antt =====
-- What an event adds to the outbox: `enqueueNotificationTx` of internal/store/notification_outbox.go. It is a
-- transaction: an error leaves the table alone.
use witshield.Base.{
  ℕ, ◌+◌, ◌-◌, ◌*◌, String, len, Bool, true, false, not, ◌&&◌, ◌||◌, Option, none, some, [], ◌∷◌,
  ◌++◌, ltb, leb, ◌==◌, str_eq, if◌then◌else◌,
}
use Prim.Native.String.{compare}
use text.Mathlib.Text.{is_lt}
use witshield.Base.Dict.{lookup}
use witshield.Actions.Statement.{count_where, first_where, is_none}
use witshield.Events.Trim.{keep_first, remove_times}
use witshield.Outbox.Leases.{
  Channel, webhook, smtp, Status, pending, failed, Row, Table, Answer, done, invalid, is_channel,
  is_pending, is_inflight, is_terminal,
}

abbrev pub max_pending_notifications_per_channel : ℕ
max_pending_notifications_per_channel = 5000

abbrev pub max_terminal_notifications_per_channel : ℕ
max_terminal_notifications_per_channel = 10000

-- The fields of `domain.NotificationEvent` that the queue reads.
pub record NotificationEvent : Type 0 where
  pub id : String
  pub type : String
  pub device_id : String

-- The row of `notification_settings`.
pub record NotificationSettings : Type 0 where
  pub webhook_enabled : Bool
  pub smtp_enabled : Bool
  pub updated_at : ℕ

-- What is used of strings and encoding/json, and of json_extract on a stored event.
pub record Wire : Type 0 where
  pub trim_space : String → String
  pub marshal : NotificationEvent → Option String
  pub type_of : String → String
  pub device_of : String → String

abbrev pub Keyed : Type 0
Keyed = String × Row

unfoldable pub is_live : Status → Bool
unfolding is_pending is_inflight
is_live s = is_pending s || is_inflight s

unfoldable pub is_live_of : Channel → Keyed → Bool
unfolding is_live is_channel
is_live_of channel (id, r) = is_channel channel r.channel && is_live r.status

unfoldable pub is_terminal_of : Channel → Keyed → Bool
unfolding is_terminal is_channel
is_terminal_of channel (id, r) = is_channel channel r.channel && is_terminal r.status

-- ORDER BY updated_at DESC, id DESC
unfoldable pub is_staler : Keyed → Keyed → Bool
is_staler (a, r) (b, s) =
    ltb r.updated_at s.updated_at || (r.updated_at == s.updated_at && is_lt (compare a b))

-- ORDER BY created_at, id
unfoldable pub is_earlier : Keyed → Keyed → Bool
is_earlier (a, r) (b, s) =
    ltb r.created_at s.created_at || (r.created_at == s.created_at && is_lt (compare a b))

-- A pending report of the device, which a newer one replaces.
unfoldable pub is_replaceable : Wire → Channel → String → Keyed → Bool
unfolding is_pending is_channel
is_replaceable w channel device_id (id, r) =
    is_channel channel r.channel
    && (is_pending r.status
        && (str_eq (w.type_of r.event) "report_completed"
            && str_eq (w.device_of r.event) device_id))

unfoldable pub is_event_for : String → Channel → Keyed → Bool
unfolding is_channel
is_event_for event_id channel (id, r) = str_eq r.event_id event_id && is_channel channel r.channel

-- INSERT OR IGNORE, under the keys `id` and `event_id, channel`, and whether a row was added.
unfoldable pub insert_or_ignore : String → Row → Table → Table × Bool
unfolding is_event_for
insert_or_ignore id r table =
    if is_none (lookup id table) && is_none (first_where (is_event_for r.event_id r.channel) table)
    then (table ++ (id, r) ∷ [], true)
    else (table, false)

unfoldable pub new_row : NotificationEvent → Channel → String → ℕ → ℕ → Row
new_row event channel payload settings_version now = record {
  event_id = event.id;
  channel = channel;
  event = payload;
  settings_version = settings_version;
  status = pending;
  attempts = 0;
  next_attempt_at = now;
  lease_until = none;
  last_error = "";
  created_at = now;
  updated_at = now;
  delivered_at = none;
}

unfoldable pub dropped_row : Row → Row
dropped_row r = record r {
  status = failed;
  last_error = "delivery dropped because notification backlog capacity was reached";
}

abbrev pub backlog : Channel → Table → ℕ
backlog channel table = count_where (is_live_of channel) table

-- At the capacity, a report makes room among the pending reports of its device.
unfoldable pub replace_reports : Wire → NotificationEvent → Channel → Table → Table
unfolding is_replaceable is_live_of
replace_reports w event channel table =
    if leb max_pending_notifications_per_channel (backlog channel table)
      && (str_eq event.type "report_completed" && not (len event.device_id == 0))
    then remove_times (is_replaceable w channel event.device_id)
        (backlog channel table - max_pending_notifications_per_channel + 1) is_earlier table
    else table

unfoldable pub add_delivery : String → Row → Table → Table × ℕ
unfolding insert_or_ignore dropped_row is_live_of
add_delivery id r table =
    if leb max_pending_notifications_per_channel (backlog r.channel table)
    then ((insert_or_ignore id (dropped_row r) table).0, 0)
    else ((insert_or_ignore id r table).0, if (insert_or_ignore id r table).1 then 1 else 0)

-- One round of the loop over the channels.
unfoldable pub enqueue_channel : Wire → NotificationEvent → String → Row → Table → Table × ℕ
unfolding is_terminal_of replace_reports add_delivery
enqueue_channel w event id r table = add_delivery id r (
    replace_reports w event r.channel (
      keep_first (is_terminal_of r.channel) max_terminal_notifications_per_channel is_staler table))

unfoldable pub enqueue_enabled :
    Wire → NotificationEvent → Bool → String → Row → Table × ℕ → Table × ℕ
unfolding enqueue_channel
enqueue_enabled w event enabled id r (table, count) =
    if enabled
    then ((enqueue_channel w event id r table).0, count + (enqueue_channel w event id r table).1)
    else (table, count)

-- The loop over the map of the two channels, whose order is random.
unfoldable pub enqueue_both :
    Wire
    → NotificationEvent
    → String
    → NotificationSettings
    → String
    → String
    → Bool
    → ℕ
    → Table
    → Table × ℕ
unfolding enqueue_enabled new_row
enqueue_both w event payload settings webhook_id smtp_id webhook_first now table =
    let webhook_row = new_row event webhook payload settings.updated_at now in
    let smtp_row = new_row event smtp payload settings.updated_at now in
    if webhook_first
    then enqueue_enabled w event settings.smtp_enabled smtp_id smtp_row
        (enqueue_enabled w event settings.webhook_enabled webhook_id webhook_row (table, 0))
    else enqueue_enabled w event settings.webhook_enabled webhook_id webhook_row
        (enqueue_enabled w event settings.smtp_enabled smtp_id smtp_row (table, 0))

unfoldable pub enqueue_valid :
    Wire
    → NotificationEvent
    → String
    → Option NotificationSettings
    → String
    → String
    → Bool
    → ℕ
    → Table
    → Table × ℕ
unfolding enqueue_both
enqueue_valid w event payload none webhook_id smtp_id webhook_first now table = (table, 0)
enqueue_valid w event payload (some settings) webhook_id smtp_id webhook_first now table =
    enqueue_both w event payload settings webhook_id smtp_id webhook_first now table

-- `enqueueNotificationTx`, and `EnqueueNotification`, which is its transaction
unfoldable pub enqueue_notification_tx :
    Wire
    → NotificationEvent
    → Option NotificationSettings
    → String
    → String
    → Bool
    → ℕ
    → Table
    → Table × Answer ℕ
unfolding enqueue_valid
enqueue_notification_tx w event settings webhook_id smtp_id webhook_first now table =
    if len (w.trim_space event.id) == 0
    then (table, invalid "notification event ID is required")
    else elim (w.marshal event) [
      | none ↦ (table, invalid "the event is no JSON")
      | some payload ↦
          if ltb (16 * 1024) (len payload)
          then (table, invalid "notification event is too large")
          else (
            (enqueue_valid w event payload settings webhook_id smtp_id webhook_first now table).0,
            done
                (enqueue_valid w event payload settings webhook_id smtp_id webhook_first now
                  table).1,
          )
    ]
