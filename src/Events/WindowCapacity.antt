-- ===== src/Events/WindowCapacity.antt =====
-- The stored count of the windows of a device, and the capacity.
use mathlib.Core.Path.{subst}
use witshield.Base.{
  ℕ, ◌+◌, ◌-◌, ◌≤◌, String, Bool, ◌&&◌, ◌≡◌, ◌∙◌, sym, ap, inl, inr, some, List, if◌then◌else◌,
  str_eq, eq_iff, Bool-cases, Option-cases, arith,
}
use witshield.Base.Dict.{lookup, insert, lookup-insert}
use witshield.Actions.Statement.{count_where}
use witshield.Events.Rows.{WindowRow, EventStore, is_window_of, is_window, is_weaker}
use witshield.Events.Trim.{keep_first, count-keep_first_le, count-keep_first_mono}
use witshield.Events.Counts.{count-split}
use witshield.Events.Windows.{
  next_count, security_event_window_count_tx, is_other_window, prune_windows,
}
use witshield.Events.WindowCounts.{
  stored_of, stored_count, windows_of, Covered, reduce-windows, reduce-Covered,
}

-- The stored count is taken, or goes up with a new row.
pub count_tx-Covered :
    (d' d : String) (new_source : Bool) (s t : EventStore) (n : ℕ)
    → security_event_window_count_tx d' new_source s ≡ some (t, n)
    → ((c : ℕ)
        → stored_count d s ≡ some c
        → windows_of d s ≤ c + (if new_source && str_eq d' d then 1 else 0))
    → ((type source : String) → count_where (is_window d type source) s.windows ≤ 1)
    → Covered t d
unfolding security_event_window_count_tx next_count
count_tx-Covered d' d new_source s t n h few unique = elim (Option-cases (lookup d' s.retention)) [
  | inl e ↦ ground (arith, e, h)
  | inr (r, e) ↦
      let count = next_count r.window_count new_source (count_where (is_window_of d') s.windows) in
      let stored = lookup-insert d' d (record r { window_count = some count }) s.retention in
      let rows : t.windows ≡ s.windows = ground (arith, e, h) in
      let counts : t.retention ≡ insert d' (record r { window_count = some count }) s.retention =
        ground (arith, e, h) in
      record {
        enough = λ c i. elim (Bool-cases (str_eq d' d)) [
          | inr j ↦
              let kept : stored_count d t ≡ stored_count d s =
                ap (λ x. stored_of (lookup d x)) counts ∙ ap stored_of stored ∙ ground (arith, j) in
              ground (arith, rows, few c, kept, i, j)
          | inl j ↦
              let same : d' ≡ d = ground (arith, eq_iff d' d) in
              let taken : stored_count d t ≡ some count =
                ap (λ x. stored_of (lookup d x)) counts ∙ ap stored_of stored ∙ ground (arith, j) in
              let before : stored_count d s ≡ r.window_count =
                ap (λ x. stored_of (lookup x s.retention)) (sym same) ∙ ap stored_of e in
              let count_is : c ≡ count = ground (arith, i, taken) in
              let here = ap (λ x. count_where (is_window_of x) s.windows) same in
              elim (Option-cases r.window_count) [
                | inl o ↦ ground (arith, o, rows, here, count_is)
                | inr (b, o) ↦ ground (arith, o, rows, here, count_is, before, few b, j)
              ]
        ];
        unique = λ type source.
            rw (ap (count_where (is_window d type source)) rows) (unique type source);
      }
]

count-parts :
    (d type source : String) (rows : List WindowRow)
    → count_where (is_window_of d) rows
      ≡ count_where (is_other_window d type source) rows
        + count_where (is_window d type source) rows
unfolding is_window_of is_other_window is_window
count-parts d type source rows =
    count-split (is_window_of d) (is_other_window d type source) (is_window d type source) rows
      (λ w a b. ground arith) (λ w a b. ground arith) (λ w a. ground arith) (λ w a. ground arith)

-- Over the capacity, the windows of the device are pruned to it.
pub prune_windows-few :
    (d type source : String) (s : EventStore)
    → count_where (is_window d type source) s.windows ≤ 1
    → windows_of d (prune_windows d type source s) ≤ 2000
unfolding prune_windows
prune_windows-few d type source s h =
    let other = is_other_window d type source in
    let windows = keep_first other 1999 is_weaker s.windows in
    let n = count_where other s.windows - count_where other windows in
    omega (
      arith,
      h,
      ap (count_where (is_window_of d)) (reduce-windows d n (record s { windows = windows })),
      count-parts d type source windows,
      count-keep_first_le other 1999 is_weaker s.windows,
      count-keep_first_mono other (is_window d type source) 1999 is_weaker s.windows,
    )

pub prune_windows-Covered :
    (d' type source d : String) (s : EventStore)
    → Covered s d
    → Covered (prune_windows d' type source s) d
unfolding prune_windows
prune_windows-Covered d' type source d s k =
    let other = is_other_window d' type source in
    let own = is_window d' type source in
    let windows = keep_first other 1999 is_weaker s.windows in
    let n = count_where other s.windows - count_where other windows in
    let mono : (q : WindowRow → Bool) → count_where q windows ≤ count_where q s.windows =
      λ q. count-keep_first_mono other q 1999 is_weaker s.windows in
    let h : count_where (is_window_of d) windows + (if str_eq d' d then n else 0) ≤ windows_of d s =
      elim (Bool-cases (str_eq d' d)) [
        | inr i ↦ ground (arith, i, mono (is_window_of d))
        | inl i ↦
            let same : d' ≡ d = ground (arith, eq_iff d' d) in
            let fewer : count_where (is_window_of d') windows + n ≤ windows_of d' s = omega (
              arith,
              mono other,
              mono own,
              count-parts d' type source windows,
              count-parts d' type source s.windows,
            ) in
            ground (
              arith,
              i,
              subst (λ x. count_where (is_window_of x) windows + n ≤ windows_of x s) same fewer,
            )
      ] in
    reduce-Covered d' d n s windows k h (λ t u. omega (arith, mono (is_window d t u), k.unique t u))
