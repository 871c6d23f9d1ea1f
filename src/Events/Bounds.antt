-- ===== src/Events/Bounds.antt =====
-- How many events of a device the table can hold.
use mathlib.Core.Path.{subst}
use witshield.Base.{
  ℕ, ◌+◌, ◌≤◌, ◌<◌, String, true, false, ◌≡◌, ◌≢◌, ◌∙◌, sym, ap, inl, inr, Option, none, some, List,
  [], ◌∷◌, ◌++◌, str_eq, eq_iff, Bool-cases, Option-cases, arith,
}
use witshield.Base.Dict.{lookup, lookup-insert}
use witshield.Actions.Statement.{count_where, first_where}
use witshield.Events.Rows.{
  SecurityEvent, RetentionState, EventStore, is_event_of, is_event, is_older,
}
use witshield.Events.Trim.{count-keep_first_le, count-keep_first_mono, keep_first_apart}
use witshield.Events.Counts.{count-append, count-absent}
use witshield.Events.Retention.{
  trim_events, counted, prune_counted, insert_event, prune_security_events_tx,
  correlation_capacity_event_id,
}

abbrev pub since_of : Option RetentionState → ℕ
since_of none = 0
since_of (some r) = r.since_prune

-- The events of the device, those but for its health signal, and these signals.
abbrev pub events_of : String → EventStore → ℕ
events_of device_id s = count_where (is_event_of device_id) s.events

abbrev pub signals_of : String → EventStore → ℕ
signals_of device_id s = count_where (is_event device_id correlation_capacity_event_id) s.events

-- The bound of each device counts the events that came since the last deletion.
pub record Kept (s : EventStore) (device_id : String) : Type 0 where
  pub bounded : events_of device_id s ≤ 2000 + since_of (lookup device_id s.retention)
  pub batch : since_of (lookup device_id s.retention) < 128
  pub single : signals_of device_id s ≤ 1

event_of_key : (d id : String) (e : SecurityEvent) → is_event d id e ≡ true → is_event_of d e ≡ true
unfolding is_event is_event_of
event_of_key d id e h = ground arith

-- The event of a key is new.
single-append :
    (d : String) (e : SecurityEvent) (rows : List SecurityEvent)
    → first_where (is_event e.device_id e.id) rows ≡ none
    → count_where (is_event d correlation_capacity_event_id) rows ≤ 1
    → count_where (is_event d correlation_capacity_event_id) (rows ++ e ∷ []) ≤ 1
single-append d e rows new h = elim (Bool-cases (is_event d correlation_capacity_event_id e)) [
  | inr out ↦ ground (arith, count-append (is_event d correlation_capacity_event_id) rows e)
  | inl hit ↦
      let same_device : e.device_id ≡ d =
        ground (arith, is_event-parts d correlation_capacity_event_id e) in
      let same_id : e.id ≡ correlation_capacity_event_id =
        ground (arith, is_event-parts d correlation_capacity_event_id e) in
      let zero_before : count_where (is_event d correlation_capacity_event_id) rows ≡ 0 =
        ap (λ x. count_where (is_event x correlation_capacity_event_id) rows) (sym same_device)
        ∙ ap (λ x. count_where (is_event e.device_id x) rows) (sym same_id)
        ∙ count-absent (is_event e.device_id e.id) rows new in
      ground (arith, count-append (is_event d correlation_capacity_event_id) rows e)
]
  where
    is_event-parts :
        (d id : String) (e : SecurityEvent)
        → is_event d id e ≡ true
        → (e.device_id ≡ d) × (e.id ≡ id)
    is_event-parts d id e h =
        unfold is_event in ground (arith, eq_iff e.device_id d, eq_iff e.id id)

-- Deleting the oldest events of a device leaves those of another alone.
pub apart :
    (d d' : String)
    → d ≢ d'
    → (e : SecurityEvent) → is_event_of d e ≡ true
    → is_event_of d' e ≡ false
unfolding is_event_of
apart d d' other e h = ground (arith, eq_iff e.device_id d, eq_iff e.device_id d')

-- After the insertion, the device of the event may be one over its bound until it is pruned.
prune-Kept_self :
    (s : EventStore) (d : String)
    → events_of d s ≤ 2000 + since_of (lookup d s.retention) + 1
    → since_of (lookup d s.retention) < 128
    → signals_of d s ≤ 1
    → Kept (prune_security_events_tx d s) d
unfolding prune_security_events_tx prune_counted counted trim_events
prune-Kept_self s d bounded batch single =
    let r = counted (lookup d s.retention) in
    ground (
      arith,
      eq_iff d d,
      lookup-insert d d r s.retention,
      lookup-insert d d (record r { since_prune = 0 }) s.retention,
      count-keep_first_le (is_event_of d) 1872 is_older s.events,
      count-keep_first_mono (is_event_of d) (is_event d correlation_capacity_event_id) 1872 is_older
          s.events,
    )

prune-Kept_other :
    (s : EventStore) (d d' : String) → d ≢ d' → Kept s d' → Kept (prune_security_events_tx d s) d'
unfolding prune_security_events_tx prune_counted counted trim_events
prune-Kept_other s d d' other k =
    let r = counted (lookup d s.retention) in
    let (counts, _) =
      keep_first_apart (is_event_of d) (is_event_of d') (apart d d' other) 1872 is_older s.events in
    ground (
      arith,
      k,
      counts,
      eq_iff d d',
      lookup-insert d d' r s.retention,
      lookup-insert d d' (record r { since_prune = 0 }) s.retention,
      count-keep_first_mono (is_event_of d) (is_event d' correlation_capacity_event_id) 1872
          is_older s.events,
    )

pub insert_event-Kept :
    (e : SecurityEvent) (s : EventStore) (d : String) → Kept s d → Kept (insert_event e s).0 d
unfolding insert_event
insert_event-Kept e s d k = elim (Option-cases (first_where (is_event e.device_id e.id) s.events)) [
  | inr (old, found) ↦ ground (arith, k, found)
  | inl new ↦
      let s' : EventStore = record s { events = s.events ++ e ∷ [] } in
      let more = count-append (is_event_of d) s.events e in
      let single = single-append d e s.events new k.single in
      let goes : (insert_event e s).0 ≡ prune_security_events_tx e.device_id s' = ground arith in
      elim (Bool-cases (str_eq e.device_id d)) [
        | inl h ↦
            let same : e.device_id ≡ d = ground (arith, eq_iff e.device_id d) in
            subst (λ t. Kept t d) (sym goes)
              (subst (λ x. Kept (prune_security_events_tx x s') d) (sym same)
                (prune-Kept_self s' d (ground (arith, k.bounded)) k.batch single))
        | inr h ↦
            let other : e.device_id ≢ d = λ x. ground (arith, eq_iff e.device_id d) in
            let few : count_where (is_event_of d) (s.events ++ e ∷ []) ≡ events_of d s =
              unfold is_event_of in ground arith in
            subst (λ t. Kept t d) (sym goes)
              (prune-Kept_other s' e.device_id d other
                (record { bounded = ground (arith, k.bounded); batch = k.batch; single = single }))
      ]
]
