-- ===== src/Events/Retention.antt =====
-- How many events of a device are kept: `pruneSecurityEventsTx` and `recordCorrelationCapacityDegradedTx` of
-- internal/store/security_events.go, and `AddSecurityEvent` of internal/store/settings_actions_defense.go.
use Prim.Native.String.{len}
use witshield.Base.{
  ℕ, ◌+◌, ◌-◌, String, Bool, true, false, not, ◌&&◌, Option, none, some, List, [], ◌∷◌, ◌++◌, ltb,
  ◌==◌, str_eq, if◌then◌else◌,
}
use witshield.Base.Dict.{lookup, insert}
use witshield.Actions.Statement.{first_where, update_where, is_none}
use witshield.Events.Rows.{
  SecurityEvent, RetentionState, EventStore, is_event_of, is_event, is_older,
}
use witshield.Events.Trim.{keep_first}

abbrev pub max_security_events_per_device : ℕ
max_security_events_per_device = 2000

abbrev pub security_event_retention_batch : ℕ
security_event_retention_batch = 128

abbrev pub max_security_event_windows_per_device : ℕ
max_security_event_windows_per_device = 2000

abbrev pub correlation_capacity_event_id : String
correlation_capacity_event_id = "evt_defense_correlation_capacity"

-- INSERT … ON CONFLICT DO UPDATE SET since_prune=since_prune+1
unfoldable pub counted : Option RetentionState → RetentionState
counted none = record { since_prune = 1; window_count = none }
counted (some r) = record r { since_prune = r.since_prune + 1 }

-- UPDATE … SET since_prune=0, where there is a row.
unfoldable pub reset_at : Option RetentionState → String → EventStore → EventStore
reset_at none device_id s = s
reset_at (some r) device_id s = record s {
  retention = insert device_id (record r { since_prune = 0 }) s.retention;
}

unfoldable pub reset_since_prune : String → EventStore → EventStore
unfolding reset_at
reset_since_prune device_id s = reset_at (lookup device_id s.retention) device_id s

-- The events of a device but for its newest ones are deleted.
unfoldable pub trim_events : (SecurityEvent → Bool) → ℕ → EventStore → EventStore
trim_events p k s = record s { events = keep_first p k is_older s.events }

unfoldable pub prune_counted : RetentionState → String → EventStore → EventStore
unfolding trim_events
prune_counted r device_id s =
    let s' : EventStore = record s { retention = insert device_id r s.retention } in
    if ltb r.since_prune security_event_retention_batch
    then s'
    else record (trim_events (is_event_of device_id)
        (max_security_events_per_device - security_event_retention_batch) s') {
          retention = insert device_id (record r { since_prune = 0 }) s.retention;
        }

-- `pruneSecurityEventsTx`
unfoldable pub prune_security_events_tx : String → EventStore → EventStore
unfolding prune_counted counted
prune_security_events_tx device_id s =
    prune_counted (counted (lookup device_id s.retention)) device_id s

-- The defaults of a new event.
unfoldable pub completed : SecurityEvent → String → SecurityEvent
completed e fresh = record e {
  id = if len e.id == 0 then fresh else e.id;
  payload = if len e.payload == 0 then "{}" else e.payload;
}

-- INSERT OR IGNORE, with its retention.
unfoldable pub insert_event : SecurityEvent → EventStore → EventStore × Bool
unfolding prune_security_events_tx
insert_event e s =
    if is_none (first_where (is_event e.device_id e.id) s.events)
    then (prune_security_events_tx e.device_id (record s { events = s.events ++ e ∷ [] }), true)
    else (s, false)

-- `AddSecurityEvent`, and the beginning of `ProcessSecurityEvent`
unfoldable pub add_security_event : SecurityEvent → String → EventStore → EventStore × Bool
unfolding insert_event completed
add_security_event e fresh s = insert_event (completed e fresh) s

-- An upsert on the key of an event.
unfoldable pub put_event : SecurityEvent → List SecurityEvent → List SecurityEvent
put_event e events =
    if is_none (first_where (is_event e.device_id e.id) events)
    then events ++ e ∷ []
    else update_where (is_event e.device_id e.id) (λ _. e) events

unfoldable pub degraded_event : String → String → ℕ → SecurityEvent
degraded_event payload device_id now = record {
  id = correlation_capacity_event_id;
  device_id = device_id;
  type = "defense_correlation_capacity_degraded";
  source_ip = "";
  occurred_at = now;
  payload = payload;
}

-- The events of a device but its health signal.
unfoldable pub is_other_event : String → SecurityEvent → Bool
is_other_event device_id e =
    str_eq e.device_id device_id && not (str_eq e.id correlation_capacity_event_id)

-- `recordCorrelationCapacityDegradedTx`, with the JSON of the signal
unfoldable pub record_correlation_capacity_degraded_tx :
    String → String → ℕ → EventStore → EventStore
unfolding trim_events reset_since_prune put_event degraded_event
record_correlation_capacity_degraded_tx payload device_id now s = reset_since_prune device_id (
    trim_events (is_other_event device_id) (max_security_events_per_device - 1)
      (record s { events = put_event (degraded_event payload device_id now) s.events }))
