-- ===== src/Events/Windows.antt =====
-- The sliding window of one source: `incrementSecurityEventWindowTx` and `securityEventWindowCountTx` of
-- internal/store/security_events.go.
use witshield.Base.{
  zero, ℕ, suc, ◌+◌, ◌-◌, ◌*◌, ◌/◌, String, Bool, false, not, ◌&&◌, Option, none, some, List, [],
  ◌∷◌, ◌++◌, ltb, leb, ◌==◌, str_eq, if◌then◌else◌, length,
}
use witshield.Base.Dict.{lookup, insert}
use witshield.Actions.Statement.{first_where, update_where, count_where, is_none}
use witshield.Defense.Correlator.{max_failure_threshold, second}
use witshield.Events.Rows.{
  RetentionState, WindowRow, EventStore, millisecond, is_window_of, is_window, is_weaker,
}
use witshield.Events.Trim.{keep_first}
use witshield.Events.Retention.{
  max_security_event_windows_per_device, record_correlation_capacity_degraded_tx,
}

unfoldable pub has_ended : ℕ → Option ℕ → Bool
has_ended now none = false
has_ended now (some ends_at) = leb ends_at now

unfoldable pub is_expired : String → ℕ → WindowRow → Bool
unfolding has_ended
is_expired device_id now w = str_eq w.device_id device_id && has_ended now w.window_ends_at

unfoldable pub delete_where : {A : Type 0} → (A → Bool) → List A → List A
delete_where p [] = []
delete_where p (x ∷ rows) = let rest = delete_where p rows in if p x then rest else x ∷ rest

-- UPDATE … SET window_count=MAX(0,window_count-n) WHERE window_count>=0
unfoldable pub minus : ℕ → Option ℕ → Option ℕ
minus n none = none
minus n (some count) = some (count - n)

unfoldable pub reduce_at : Option RetentionState → String → ℕ → EventStore → EventStore
unfolding minus
reduce_at none device_id n s = s
reduce_at (some r) device_id n s = record s {
  retention = insert device_id (record r { window_count = minus n r.window_count }) s.retention;
}

unfoldable pub reduce_window_count : String → ℕ → EventStore → EventStore
unfolding reduce_at
reduce_window_count device_id n s = reduce_at (lookup device_id s.retention) device_id n s

-- The windows of the device that have ended go first.
unfoldable pub delete_expired : String → ℕ → EventStore → EventStore
unfolding reduce_window_count is_expired
delete_expired device_id now s =
    let expired = count_where (is_expired device_id now) s.windows in
    let s' : EventStore = record s {
      windows = delete_where (is_expired device_id now) s.windows;
    } in
    if ltb 0 expired then reduce_window_count device_id expired s' else s'

unfoldable pub insert_sorted : ℕ → List ℕ → List ℕ
insert_sorted t [] = t ∷ []
insert_sorted t (u ∷ times) = if leb t u then t ∷ u ∷ times else u ∷ insert_sorted t times

-- sort.Slice
unfoldable pub sort : List ℕ → List ℕ
unfolding insert_sorted
sort [] = []
sort (t ∷ times) = insert_sorted t (sort times)

unfoldable pub drop : ℕ → List ℕ → List ℕ
drop zero times = times
drop (suc n) [] = []
drop (suc n) (t ∷ times) = drop n times

-- The samples of the stored window, if it has the same length.
unfoldable pub samples : Option WindowRow → ℕ → List ℕ
samples none window_seconds = []
samples (some w) window_seconds = if w.window_seconds == window_seconds then w.event_times else []

-- The samples that are kept with the new one: those of the window, at most 100, in order.
unfoldable pub kept_samples : List ℕ → ℕ → ℕ → List ℕ
unfolding sort drop
kept_samples times cutoff sample =
    let kept = sort (delete_where (λ t. ltb t cutoff) times ++ sample ∷ []) in
    drop (length kept - max_failure_threshold) kept

first_or : ℕ → List ℕ → ℕ
first_or t [] = t
first_or t (u ∷ times) = u

last_or : ℕ → List ℕ → ℕ
last_or t [] = t
last_or t (u ∷ times) = last_or u times

unfoldable pub window_row : String → String → String → ℕ → List ℕ → ℕ → ℕ → WindowRow
unfolding first_or last_or
window_row device_id type source_ip window kept occurred_at now = record {
  device_id = device_id;
  type = type;
  source_ip = source_ip;
  window_seconds = window / second;
  window_started_at = first_or (occurred_at / millisecond) kept * millisecond;
  last_seen_at = now;
  event_count = length kept;
  event_times = kept;
  window_ends_at = some (last_or (occurred_at / millisecond) kept * millisecond + window);
}

-- An upsert on the key of a window, where the row is new or not.
unfoldable pub put_window : Option WindowRow → WindowRow → List WindowRow → List WindowRow
put_window none w windows = windows ++ w ∷ []
put_window (some _) w windows =
    update_where (is_window w.device_id w.type w.source_ip) (λ _. w) windows

-- The count of the windows of a device: taken once, then kept by its changes.
unfoldable pub next_count : Option ℕ → Bool → ℕ → ℕ
next_count none new_source rows = rows
next_count (some count) new_source rows = if new_source then count + 1 else count

-- `securityEventWindowCountTx`; the row of the device must exist.
unfoldable pub security_event_window_count_tx : String → Bool → EventStore → Option (EventStore × ℕ)
unfolding next_count
security_event_window_count_tx device_id new_source s = elim (lookup device_id s.retention) [
  | none ↦ none
  | some r ↦
      let count =
        next_count r.window_count new_source (count_where (is_window_of device_id) s.windows) in
      some (
        record s {
          retention = insert device_id (record r { window_count = some count }) s.retention;
        },
        count,
      )
]

-- The windows of the device but that of the source.
unfoldable pub is_other_window : String → String → String → WindowRow → Bool
is_other_window device_id type source_ip w =
    str_eq w.device_id device_id && not (str_eq w.type type && str_eq w.source_ip source_ip)

-- Over the capacity the weakest windows go, but not that of the source.
unfoldable pub prune_windows : String → String → String → EventStore → EventStore
unfolding reduce_window_count is_other_window
prune_windows device_id type source_ip s =
    let other = is_other_window device_id type source_ip in
    let windows =
      keep_first other (max_security_event_windows_per_device - 1) is_weaker s.windows in
    reduce_window_count device_id (count_where other s.windows - count_where other windows)
      (record s { windows = windows })

unfoldable pub limit_windows : String → String → String → String → ℕ → EventStore × ℕ → EventStore
unfolding prune_windows
limit_windows payload device_id type source_ip now (s, count) =
    let s' =
      if leb max_security_event_windows_per_device count
      then record_correlation_capacity_degraded_tx payload device_id now s
      else s in
    if ltb max_security_event_windows_per_device count
    then prune_windows device_id type source_ip s'
    else s'

-- `incrementSecurityEventWindowTx`, with the JSON of the health signal by the count that it reports
unfoldable pub increment_security_event_window_tx :
    (ℕ → String) → String → String → String → ℕ → ℕ → ℕ → EventStore → Option (EventStore × ℕ)
unfolding delete_expired samples kept_samples window_row put_window security_event_window_count_tx
    limit_windows
increment_security_event_window_tx payload device_id type source_ip window occurred_at now s =
    let s' = delete_expired device_id now s in
    let row = first_where (is_window device_id type source_ip) s'.windows in
    let kept =
      kept_samples (samples row (window / second)) ((now - window) / millisecond)
        (occurred_at / millisecond) in
    let w = window_row device_id type source_ip window kept occurred_at now in
    elim (security_event_window_count_tx device_id (is_none row)
      (record s' { windows = put_window row w s'.windows })) [
        | none ↦ none
        | some (t, count) ↦
            some
              (limit_windows (payload count) device_id type source_ip now (t, count), length kept)
      ]
