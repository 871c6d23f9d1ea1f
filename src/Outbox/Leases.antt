-- ===== src/Outbox/Leases.antt =====
-- The leases of the notification outbox (internal/store/notification_outbox.go): claim, complete, cancel
-- and release one delivery, and cancel or prune many. A transaction is one step on the table.
pub mod Held
pub mod Exclusion
use Prim.Native.String.{compare, slice}
use text.Mathlib.Text.{is_lt}
use witshield.Base.{
  ℕ, ◌+◌, ◌-◌, String, len, Bool, true, false, not, ◌&&◌, ◌||◌, Option, none, some, List, [], ◌∷◌,
  ltb, leb, ◌==◌, str_eq, if◌then◌else◌,
}
use witshield.Base.Dict.{lookup, insert}

pub data Channel : Type 0 where
  webhook : Channel
  smtp : Channel
  other_channel : String → Channel

pub data Status : Type 0 where
  pending inflight delivered failed canceled : Status

-- A row of `notification_outbox`; the key of the table is the id.
pub record Row : Type 0 where
  pub event_id : String
  pub channel : Channel
  pub event : String
  pub settings_version : ℕ
  pub status : Status
  pub attempts : ℕ
  pub next_attempt_at : ℕ
  pub lease_until : Option ℕ
  pub last_error : String
  pub created_at : ℕ
  pub updated_at : ℕ
  pub delivered_at : Option ℕ

abbrev pub Table : Type 0
Table = List (String × Row)

pub record NotificationDelivery : Type 0 where
  pub id : String
  pub event_id : String
  pub channel : Channel
  pub event : String
  pub attempts : ℕ
  pub lease_until : ℕ
  pub created_at : ℕ
  pub settings_updated_at : ℕ

-- How a call ends: with a result, with an error of the arguments, with ErrNotFound or ErrConflict.
pub data Answer (A : Type 0) : Type 0 where
  done : A → Answer A
  invalid : String → Answer A
  not_found : Answer A
  conflict : Answer A

unfoldable pub is_channel : Channel → Channel → Bool
is_channel webhook webhook = true
is_channel smtp smtp = true
is_channel (other_channel s) (other_channel t) = str_eq s t
is_channel _ _ = false

unfoldable pub is_valid_channel : Channel → Bool
is_valid_channel webhook = true
is_valid_channel smtp = true
is_valid_channel (other_channel _) = false

unfoldable pub is_pending : Status → Bool
is_pending pending = true
is_pending _ = false

unfoldable pub is_inflight : Status → Bool
is_inflight inflight = true
is_inflight _ = false

unfoldable pub is_terminal : Status → Bool
is_terminal delivered = true
is_terminal failed = true
is_terminal canceled = true
is_terminal _ = false

unfoldable pub lease_over : ℕ → Option ℕ → Bool
lease_over now none = false
lease_over now (some until) = leb until now

-- The condition under which a row can be leased.
unfoldable pub is_due : ℕ → Row → Bool
unfolding is_pending is_inflight lease_over
is_due now r =
    (is_pending r.status && leb r.next_attempt_at now)
    || (is_inflight r.status && lease_over now r.lease_until)

-- ORDER BY next_attempt_at, created_at, id
unfoldable pub comes_before : String × Row → String × Row → Bool
comes_before (a, r) (b, s) =
    ltb r.next_attempt_at s.next_attempt_at
    || (r.next_attempt_at == s.next_attempt_at
        && (ltb r.created_at s.created_at || (r.created_at == s.created_at && is_lt (compare a b))))

unfoldable pub earlier : String × Row → Option (String × Row) → Option (String × Row)
unfolding comes_before
earlier x none = some x
earlier x (some y) = if comes_before y x then some y else some x

-- The first row that satisfies the condition.
pub first_row : (Row → Bool) → Table → Option (String × Row)
unfolding earlier
first_row where_row [] = none
first_row where_row ((id, r) ∷ rest) =
    let later_row = first_row where_row rest in
    if where_row r then earlier (id, r) later_row else later_row

-- UPDATE of the row with the id, where it satisfies the condition, and whether a row was affected.
unfoldable pub update_row : String → (Row → Bool) → (Row → Row) → Table → Table × Bool
update_row id where_row f table = elim (lookup id table) [
  | none ↦ (table, false)
  | some r ↦ if where_row r then (insert id (f r) table, true) else (table, false)
]

abbrev pub leased : ℕ → ℕ → Row → Row
leased now until r = record r {
  status = inflight;
  attempts = r.attempts + 1;
  lease_until = some until;
  updated_at = now;
}

-- `ClaimNotificationDelivery`, where the stored event and times are well formed.
unfoldable pub claim : Channel → ℕ → ℕ → Table → Table × Answer NotificationDelivery
unfolding first_row update_row is_due is_channel is_valid_channel
claim channel now lease table =
    if not (is_valid_channel channel)
    then (table, invalid "invalid notification channel")
    else if lease == 0
    then (table, invalid "notification lease must be positive")
    else elim (first_row (λ r. is_channel channel r.channel && is_due now r) table) [
      | none ↦ (table, not_found)
      | some (id, r) ↦
          let (table', affected) = update_row id (is_due now) (leased now (now + lease)) table in
          if affected
          then (
            table',
            done (record {
              id = id;
              event_id = r.event_id;
              channel = channel;
              event = r.event;
              attempts = r.attempts + 1;
              lease_until = now + lease;
              created_at = r.created_at;
              settings_updated_at = r.settings_version;
            }),
          )
          else (table, conflict)
    ]

unfoldable pub is_time : Option ℕ → ℕ → Bool
is_time none t = false
is_time (some s) t = s == t

-- The row is still leased under the token of the delivery.
unfoldable pub holds : NotificationDelivery → Row → Bool
unfolding is_inflight is_time
holds d r = is_inflight r.status && r.attempts == d.attempts && is_time r.lease_until d.lease_until

-- The end of a leased delivery: the row changes, or nothing does.
unfoldable pub end_lease : NotificationDelivery → (Row → Row) → Table → Table × Answer (Unit {0})
unfolding holds update_row
end_lease d f table =
    let (table', affected) = update_row d.id (holds d) f table in
    if affected then (table', done tt) else (table', conflict)

-- At most 512 bytes of a text.
abbrev pub clip : String → String
clip s = if ltb 512 (len s) then slice s 0 512 else s

unfoldable pub completed : NotificationDelivery → Bool → ℕ → ℕ → ℕ → String → Row → Row
completed d true retry_at now max_attempts last_error r = record r {
  status = delivered;
  next_attempt_at = now;
  lease_until = none;
  last_error = clip last_error;
  updated_at = now;
  delivered_at = some now;
}
completed d false retry_at now max_attempts last_error r = record r {
  status = if leb max_attempts d.attempts then failed else pending;
  next_attempt_at = retry_at;
  lease_until = none;
  last_error = clip last_error;
  updated_at = now;
  delivered_at = none;
}

-- `CompleteNotificationDelivery`
unfoldable pub complete :
    NotificationDelivery → Bool → ℕ → ℕ → ℕ → String → Table → Table × Answer (Unit {0})
unfolding end_lease completed
complete d was_delivered retry_at now max_attempts last_error table =
    if ltb max_attempts 1
    then (table, invalid "notification max attempts must be positive")
    else end_lease d (completed d was_delivered retry_at now max_attempts last_error) table

-- `CancelNotificationDelivery`
unfoldable pub cancel : NotificationDelivery → String → ℕ → Table → Table × Answer (Unit {0})
unfolding end_lease
cancel d reason now = end_lease d (λ r. record r {
  status = canceled;
  lease_until = none;
  last_error = clip reason;
  updated_at = now;
})

-- `ReleaseNotificationDelivery`
unfoldable pub release : NotificationDelivery → ℕ → Table → Table × Answer (Unit {0})
unfolding end_lease
release d now = end_lease d (λ r. record r {
  status = pending;
  attempts = r.attempts - 1;
  next_attempt_at = now;
  lease_until = none;
  updated_at = now;
})

unfoldable pub update_all : (Row → Bool) → (Row → Row) → Table → Table
update_all where_row f [] = []
update_all where_row f ((id, r) ∷ rest) =
    (id, if where_row r then f r else r) ∷ update_all where_row f rest

abbrev pub withdrawn : String → ℕ → Row → Row
withdrawn reason now r = record r { status = canceled; last_error = clip reason; updated_at = now }

-- `CancelPendingNotificationChannel`
unfoldable pub cancel_pending : Channel → String → ℕ → Table → Table × Answer (Unit {0})
unfolding update_all is_pending is_channel is_valid_channel
cancel_pending channel reason now table =
    if not (is_valid_channel channel) then (table, invalid "invalid notification channel") else (
      update_all (λ r. is_channel channel r.channel && is_pending r.status) (withdrawn reason now)
          table,
      done tt,
    )

-- `PruneNotificationOutbox`, which deletes the terminal rows of before a time.
unfoldable pub prune : ℕ → Table → Table
unfolding is_terminal
prune before [] = []
prune before ((id, r) ∷ rest) =
    let kept = prune before rest in
    if is_terminal r.status && ltb r.updated_at before then kept else (id, r) ∷ kept
