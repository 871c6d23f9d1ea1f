-- ===== src/Events/Calls.antt =====
-- The calls that change the tables of security events: `AddSecurityEvent`, what `ProcessSecurityEvent` of
-- internal/store/security_events.go does with these tables, and the deletions of `Maintain` of
-- internal/store/maintenance.go.
use witshield.Base.{
  ℕ, ◌-◌, ◌*◌, String, Bool, not, ◌&&◌, ◌||◌, Option, none, some, List, [], ◌∷◌, ltb, leb, ◌==◌,
  str_eq, if◌then◌else◌,
}
use Prim.Native.String.{len}
use witshield.Defense.Correlator.{second}
use witshield.Events.Rows.{SecurityEvent, WindowRow, EventStore}
use witshield.Events.Retention.{insert_event, add_security_event}
use witshield.Events.Windows.{has_ended, delete_where, increment_security_event_window_tx}
use witshield.Actions.Statement.{is_none}

abbrev pub day : ℕ
day = 86400 * second

-- The source is its canonical address, where it is one without a zone.
unfoldable pub normalized : SecurityEvent → Option String → SecurityEvent
normalized e none = record e { payload = if len e.payload == 0 then "{}" else e.payload }
normalized e (some address) = record e {
  payload = if len e.payload == 0 then "{}" else e.payload;
  source_ip = address;
}

unfoldable pub or_unchanged : EventStore → Option (EventStore × ℕ) → EventStore
or_unchanged s none = s
or_unchanged s (some (t, _)) = t

-- A failed login of an address within the window of the policy is counted.
unfoldable pub is_counted : SecurityEvent → Option String → ℕ → ℕ → Bool
is_counted e source window now =
    str_eq e.type "ssh_auth_failure" && (not (is_none source) && leb (now - window) e.occurred_at)

-- An error of the count rolls the whole transaction back.
unfoldable pub count_failure :
    (ℕ → String) → SecurityEvent → ℕ → ℕ → EventStore → EventStore → EventStore
unfolding increment_security_event_window_tx or_unchanged
count_failure payload e window now before s = or_unchanged before (
    increment_security_event_window_tx payload e.device_id e.type e.source_ip window e.occurred_at
      now s)

-- `ProcessSecurityEvent`, by the canonical address of the source and the window of the policy
unfoldable pub process_security_event :
    (ℕ → String) → SecurityEvent → Option String → ℕ → ℕ → EventStore → EventStore
unfolding normalized insert_event is_counted count_failure
process_security_event payload event source window now s =
    let e = normalized event source in
    let (t, inserted) = insert_event e s in
    if inserted && is_counted e source window now then count_failure payload e window now s t else t

unfoldable pub is_over : ℕ → WindowRow → Bool
unfolding has_ended
is_over now w =
    has_ended now w.window_ends_at || (is_none w.window_ends_at && ltb w.last_seen_at (now - day))

-- The events of more than seven days and the windows that have ended.
unfoldable pub maintain : ℕ → EventStore → EventStore
unfolding delete_where is_over
maintain now s = record s {
  events = delete_where (λ e. ltb e.occurred_at (now - 7 * day)) s.events;
  windows = delete_where (is_over now) s.windows;
}

pub data EventCall : Type 0 where
  add : SecurityEvent → String → EventCall
  process : (ℕ → String) → SecurityEvent → Option String → ℕ → ℕ → EventCall
  clean : ℕ → EventCall

unfoldable pub event_call : EventCall → EventStore → EventStore
unfolding add_security_event process_security_event maintain
event_call (add event fresh) s = (add_security_event event fresh s).0
event_call (process payload event source window now) s =
    process_security_event payload event source window now s
event_call (clean now) s = maintain now s

unfoldable pub event_calls : List EventCall → EventStore → EventStore
unfolding event_call
event_calls [] s = s
event_calls (c ∷ calls) s = event_calls calls (event_call c s)

abbrev pub empty_events : EventStore
empty_events = record { events = []; retention = []; windows = [] }
