-- ===== src/Events/Signal.antt =====
-- The health signal keeps the bound of the events of a device.
use mathlib.Core.Path.{subst}
use witshield.Base.{
  ℕ, ◌+◌, ◌≤◌, String, Bool, true, false, ◌&&◌, ◌≡◌, ◌≢◌, ◌∙◌, sym, ap, inl, inr, none, List,
  if◌then◌else◌, str_eq, eq_iff, Bool-cases, Option-cases, arith,
}
use witshield.Base.Dict.{lookup, lookup-insert}
use witshield.Actions.Statement.{is_none, count_where, first_where}
use witshield.Events.Rows.{SecurityEvent, EventStore, is_event_of, is_event, is_older}
use witshield.Events.Trim.{keep_first, count-keep_first_le, keep_first_apart}
use witshield.Events.Counts.{count-append, count-update, count-split, count-absent}
use witshield.Events.Retention.{
  reset_at, trim_events, put_event, degraded_event, is_other_event,
  record_correlation_capacity_degraded_tx, reset_since_prune, correlation_capacity_event_id,
}
use witshield.Events.Bounds.{since_of, Kept, apart}

-- The events of a device are its signals and the others.
count-parts :
    (d : String) (rows : List SecurityEvent)
    → count_where (is_event_of d) rows
      ≡ count_where (is_other_event d) rows
        + count_where (is_event d correlation_capacity_event_id) rows
unfolding is_event_of is_other_event is_event
count-parts d rows =
    count-split (is_event_of d) (is_other_event d) (is_event d correlation_capacity_event_id) rows
      (λ e a b. ground arith) (λ e a b. ground arith) (λ e a. ground arith) (λ e a. ground arith)

-- An upsert adds a row where there is none of its key.
count-put_event :
    (q : SecurityEvent → Bool) (e : SecurityEvent) (rows : List SecurityEvent)
    → ((r : SecurityEvent) → is_event e.device_id e.id r ≡ true → q e ≡ q r)
    → count_where q (put_event e rows)
      ≡ count_where q rows
        + (if is_none (first_where (is_event e.device_id e.id) rows) && q e then 1 else 0)
unfolding put_event
count-put_event q e rows same = ground (
  arith,
  count-append q rows e,
  count-update q (is_event e.device_id e.id) (λ (_ : SecurityEvent). e) rows same,
)

same_device :
    (d' : String) (e r : SecurityEvent)
    → is_event e.device_id e.id r ≡ true
    → is_event_of d' e ≡ is_event_of d' r
unfolding is_event is_event_of
same_device d' e r h = ground (arith, eq_iff r.device_id e.device_id)

same_key :
    (d' id : String) (e r : SecurityEvent)
    → is_event e.device_id e.id r ≡ true
    → is_event d' id e ≡ is_event d' id r
unfolding is_event
same_key d' id e r h = ground (arith, eq_iff r.device_id e.device_id, eq_iff r.id e.id)

put_event-signals :
    (payload : String) (d d' : String) (now : ℕ) (rows : List SecurityEvent)
    → count_where (is_event d' correlation_capacity_event_id) rows ≤ 1
    → count_where
        (is_event d' correlation_capacity_event_id)
        (put_event (degraded_event payload d now) rows)
      ≤ 1
unfolding degraded_event
put_event-signals payload d d' now rows h =
    let key = is_event d' correlation_capacity_event_id in
    let e = degraded_event payload d now in
    let counts = count-put_event key e rows (same_key d' correlation_capacity_event_id e) in
    elim (Bool-cases (str_eq d d')) [
      | inl s ↦
          let same : d ≡ d' = ground (arith, eq_iff d d') in
          let found : first_where (is_event d correlation_capacity_event_id) rows ≡ none
              → count_where key rows ≡ 0 =
            λ n. count-absent key rows (
              ap (λ x. first_where (is_event x correlation_capacity_event_id) rows) (sym same)
              ∙ n) in
          ground (arith, found)
      | inr o ↦ let miss : key e ≡ false = unfold is_event in ground arith in ground arith
    ]

put_event-others :
    (payload : String) (d d' : String) (now : ℕ) (rows : List SecurityEvent)
    → d ≢ d'
    → count_where (is_event_of d') (put_event (degraded_event payload d now) rows)
      ≡ count_where (is_event_of d') rows
unfolding degraded_event is_event_of
put_event-others payload d d' now rows other = ground (
  arith,
  eq_iff d d',
  count-put_event (is_event_of d') (degraded_event payload d now) rows
      (same_device d' (degraded_event payload d now)),
)

other_is_event :
    (d : String) (e : SecurityEvent) → is_other_event d e ≡ true → is_event_of d e ≡ true
unfolding is_other_event is_event_of
other_is_event d e h = ground arith

no_signal :
    (d d' : String) (e : SecurityEvent)
    → is_other_event d e ≡ true
    → is_event d' correlation_capacity_event_id e ≡ false
unfolding is_other_event is_event
no_signal d d' e h = ground arith

reset-since :
    (d d' : String) (s : EventStore)
    → since_of (lookup d' (reset_since_prune d s).retention)
      ≡ (if str_eq d d' then 0 else since_of (lookup d' s.retention))
unfolding reset_since_prune reset_at
reset-since d d' s = elim (Option-cases (lookup d s.retention)) [
  | inl e ↦ ground (arith, e, eq_iff d d')
  | inr (r, e) ↦
      ground (arith, e, eq_iff d d', lookup-insert d d' (record r { since_prune = 0 }) s.retention)
]

reset-events : (d : String) (s : EventStore) → (reset_since_prune d s).events ≡ s.events
unfolding reset_since_prune reset_at
reset-events d s = ground arith

pub record_degraded-Kept :
    (payload d d' : String) (now : ℕ) (s : EventStore)
    → Kept s d'
    → Kept (record_correlation_capacity_degraded_tx payload d now s) d'
unfolding record_correlation_capacity_degraded_tx trim_events
record_degraded-Kept payload d d' now s k =
    let put = put_event (degraded_event payload d now) s.events in
    let kept = keep_first (is_other_event d) 1999 is_older put in
    let t : EventStore = record s { events = kept } in
    let single = put_event-signals payload d d' now s.events k.single in
    let signals =
      keep_first_apart (is_other_event d) (is_event d' correlation_capacity_event_id)
        (no_signal d d') 1999 is_older put in
    elim (Bool-cases (str_eq d d')) [
      | inl e ↦
          let same : d ≡ d' = ground (arith, eq_iff d d') in
          let few : count_where (is_other_event d') kept ≤ 1999 =
            subst (λ x. count_where (is_other_event x) kept ≤ 1999) same
              (count-keep_first_le (is_other_event d) 1999 is_older put) in
          let parts = count-parts d' kept in
          let since = reset-since d d' t in
          let rows = ap (count_where (is_event_of d')) (reset-events d t) in
          let rows_signals =
            ap (count_where (is_event d' correlation_capacity_event_id)) (reset-events d t) in
          record {
            bounded = ground (arith, k.bounded, k.batch, signals);
            batch = ground (arith, k.bounded, k.batch, signals);
            single = ground (arith, k.bounded, k.batch, signals);
          }
      | inr e ↦
          let other : d ≢ d' = λ x. ground (arith, eq_iff d d') in
          let others = put_event-others payload d d' now s.events other in
          let counts =
            (keep_first_apart (is_other_event d) (is_event_of d')
              (λ x h. apart d d' other x (other_is_event d x h)) 1999 is_older put).0 in
          let since = reset-since d d' t in
          let rows = ap (count_where (is_event_of d')) (reset-events d t) in
          let rows_signals =
            ap (count_where (is_event d' correlation_capacity_event_id)) (reset-events d t) in
          record {
            bounded = ground (arith, k.bounded, k.batch, signals);
            batch = ground (arith, k.bounded, k.batch, signals);
            single = ground (arith, k.bounded, k.batch, signals);
          }
    ]
