-- ===== src/Events/Rows.antt =====
-- The tables `security_events`, `security_event_retention_state` and `security_event_windows` of
-- internal/store/store.go, in the order of their rowids. Stored JSON and times are held decoded.
use witshield.Base.{ℕ, String, Bool, ◌&&◌, Option, List, ltb, str_eq, ◌==◌, ◌||◌}

-- `domain.SecurityEvent`, and its row
pub record SecurityEvent : Type 0 where
  pub id : String
  pub device_id : String
  pub type : String
  pub source_ip : String
  pub occurred_at : ℕ
  pub payload : String

-- The count of windows is none (the column is -1) until it is first taken.
pub record RetentionState : Type 0 where
  pub since_prune : ℕ
  pub window_count : Option ℕ

-- The times of the samples are milliseconds, all other times nanoseconds.
pub record WindowRow : Type 0 where
  pub device_id : String
  pub type : String
  pub source_ip : String
  pub window_seconds : ℕ
  pub window_started_at : ℕ
  pub last_seen_at : ℕ
  pub event_count : ℕ
  pub event_times : List ℕ
  pub window_ends_at : Option ℕ

pub record EventStore : Type 0 where
  pub events : List SecurityEvent
  pub retention : List (String × RetentionState)
  pub windows : List WindowRow

abbrev pub millisecond : ℕ
millisecond = 1000000

unfoldable pub is_event_of : String → SecurityEvent → Bool
is_event_of device_id e = str_eq e.device_id device_id

-- The primary key of an event.
unfoldable pub is_event : String → String → SecurityEvent → Bool
is_event device_id id e = str_eq e.device_id device_id && str_eq e.id id

-- ORDER BY occurred_at DESC, rowid DESC
unfoldable pub is_older : SecurityEvent → SecurityEvent → Bool
is_older e f = ltb e.occurred_at f.occurred_at

unfoldable pub is_window_of : String → WindowRow → Bool
is_window_of device_id w = str_eq w.device_id device_id

-- The primary key of a window.
unfoldable pub is_window : String → String → String → WindowRow → Bool
is_window device_id type source_ip w =
    str_eq w.device_id device_id && (str_eq w.type type && str_eq w.source_ip source_ip)

-- ORDER BY event_count DESC, last_seen_at DESC, rowid DESC
unfoldable pub is_weaker : WindowRow → WindowRow → Bool
is_weaker v w =
    ltb v.event_count w.event_count
    || (v.event_count == w.event_count && ltb v.last_seen_at w.last_seen_at)
