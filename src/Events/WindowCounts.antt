-- ===== src/Events/WindowCounts.antt =====
-- How many windows of a device there are, and the stored count of them.
use mathlib.Core.Path.{subst}
use witshield.Base.{
  ℕ, ◌+◌, ◌-◌, ◌≤◌, String, Bool, true, ◌&&◌, ◌≡◌, refl, ◌∙◌, sym, ap, inl, inr, Option, none, some,
  List, if◌then◌else◌, str_eq, eq_iff, Bool-cases, Option-cases, arith, ltb,
}
use witshield.Base.Dict.{lookup, lookup-insert}
use witshield.Actions.Statement.{is_none, count_where, first_where}
use witshield.Events.Rows.{RetentionState, WindowRow, EventStore, is_window_of, is_window}
use witshield.Events.Counts.{
  count-append, count-update, count-delete, count-delete_le, count-absent,
}
use witshield.Events.Windows.{
  minus, is_expired, delete_where, reduce_at, reduce_window_count, delete_expired, put_window,
}

abbrev pub stored_of : Option RetentionState → Option ℕ
stored_of none = none
stored_of (some r) = r.window_count

abbrev pub stored_count : String → EventStore → Option ℕ
stored_count device_id s = stored_of (lookup device_id s.retention)

abbrev pub windows_of : String → EventStore → ℕ
windows_of device_id s = count_where (is_window_of device_id) s.windows

-- Where the count of the device is stored, there are no more windows.
pub record Covered (s : EventStore) (d : String) : Type 0 where
  pub enough : (c : ℕ) → stored_count d s ≡ some c → windows_of d s ≤ c
  pub unique : (type source : String) → count_where (is_window d type source) s.windows ≤ 1

reduce-stored :
    (d' d : String) (n : ℕ) (s : EventStore)
    → stored_count d (reduce_window_count d' n s)
      ≡ (if str_eq d' d then minus n (stored_count d s) else stored_count d s)
unfolding reduce_window_count reduce_at minus
reduce-stored d' d n s = elim (Option-cases (lookup d' s.retention)) [
  | inl e ↦ ground (arith, e, eq_iff d' d)
  | inr (r, e) ↦ ground (
    arith,
    e,
    eq_iff d' d,
    lookup-insert d' d (record r { window_count = minus n r.window_count }) s.retention,
  )
]

pub reduce-windows :
    (d : String) (n : ℕ) (s : EventStore) → (reduce_window_count d n s).windows ≡ s.windows
unfolding reduce_window_count reduce_at
reduce-windows d n s = ground arith

minus-some : (n c : ℕ) (o : Option ℕ) → minus n o ≡ some c → (b : ℕ) × (o ≡ some b) × (c ≡ b - n)
unfolding minus
minus-some n c none h = cc
minus-some n c (some b) h = (b, refl, ground (arith, h))

-- The windows of a device and their count go down together.
pub reduce-Covered :
    (d' d : String) (n : ℕ) (s : EventStore) (rows : List WindowRow)
    → Covered s d
    → count_where (is_window_of d) rows + (if str_eq d' d then n else 0) ≤ windows_of d s
    → ((type source : String) → count_where (is_window d type source) rows ≤ 1)
    → Covered (reduce_window_count d' n (record s { windows = rows })) d
reduce-Covered d' d n s rows k h unique =
    let t : EventStore = record s { windows = rows } in
    let same = reduce-windows d' n t in
    let counts = ap (count_where (is_window_of d)) same in
    let stored = reduce-stored d' d n t in
    record {
      enough = λ c e. elim (Bool-cases (str_eq d' d)) [
        | inl i ↦
            let (b, before, less) = minus-some n c (stored_count d s) (ground (arith, e, i)) in
            ground (arith, k.enough b before, h, counts, less, i)
        | inr i ↦ ground (arith, k.enough c, h, counts, stored, e, i)
      ];
      unique =
          λ type source. rw (ap (count_where (is_window d type source)) same) (unique type source);
    }

pub delete_expired-Covered :
    (d' d : String) (now : ℕ) (s : EventStore) → Covered s d → Covered (delete_expired d' now s) d
unfolding delete_expired
delete_expired-Covered d' d now s k =
    let p = is_expired d' now in
    let rows = delete_where p s.windows in
    let expired = count_where p s.windows in
    let h : count_where (is_window_of d) rows + (if str_eq d' d then expired else 0)
        ≤ windows_of d s =
      elim (Bool-cases (str_eq d' d)) [
        | inl i ↦
            let same : d' ≡ d = ground (arith, eq_iff d' d) in
            ground (
              arith,
              i,
              count-delete (is_window_of d) p s.windows
                  (λ x e. unfold is_window_of is_expired in ground (arith, same)),
            )
        | inr i ↦ ground (arith, i, count-delete_le (is_window_of d) p s.windows)
      ] in
    let unique : (type source : String) → count_where (is_window d type source) rows ≤ 1 =
      λ type source.
        omega
          (arith, k.unique type source, count-delete_le (is_window d type source) p s.windows) in
    let reduced = reduce-Covered d' d expired s rows k h unique in
    elim (Bool-cases (ltb 0 expired)) [
      | inl i ↦ subst (λ t. Covered t d) (ground (arith, i)) reduced
      | inr i ↦
          let t : EventStore = record s { windows = rows } in
          let kept : Covered t d = record {
            enough =
                λ c e. omega (arith, k.enough c e, count-delete_le (is_window_of d) p s.windows);
            unique = unique;
          } in
          subst (λ t. Covered t d) (ground (arith, i)) kept
    ]

-- The row of a source is new, or changed in place.
pub count-put_window :
    (q : WindowRow → Bool) (w : WindowRow) (rows : List WindowRow)
    → ((r : WindowRow) → is_window w.device_id w.type w.source_ip r ≡ true → q w ≡ q r)
    → count_where q
        (put_window (first_where (is_window w.device_id w.type w.source_ip) rows) w rows)
      ≡ count_where q rows
        + (if is_none (first_where (is_window w.device_id w.type w.source_ip) rows) && q w
            then 1
            else 0)
unfolding put_window
count-put_window q w rows same =
    let p = is_window w.device_id w.type w.source_ip in
    let appended = count-append q rows w in
    let updated = count-update q p (λ (_ : WindowRow). w) rows same in
    elim (Option-cases (first_where p rows)) [
      | inl e ↦ ground (arith, e, appended)
      | inr (_, e) ↦ ground (arith, e, updated)
    ]

pub same_device :
    (d : String) (w r : WindowRow)
    → is_window w.device_id w.type w.source_ip r ≡ true
    → is_window_of d w ≡ is_window_of d r
unfolding is_window is_window_of
same_device d w r h = ground (arith, eq_iff r.device_id w.device_id)

same_source :
    (d type source : String) (w r : WindowRow)
    → is_window w.device_id w.type w.source_ip r ≡ true
    → is_window d type source w ≡ is_window d type source r
unfolding is_window
same_source d type source w r h =
    ground
      (arith, eq_iff r.device_id w.device_id, eq_iff r.type w.type, eq_iff r.source_ip w.source_ip)

key_of :
    (d type source : String) (w : WindowRow)
    → is_window d type source w ≡ true
    → (w.device_id ≡ d) × (w.type ≡ type) × (w.source_ip ≡ source)
unfolding is_window
key_of d type source w h =
    ground (arith, eq_iff w.device_id d, eq_iff w.type type, eq_iff w.source_ip source)

-- The primary key of the windows stays one.
pub put_window_unique :
    (w : WindowRow) (rows : List WindowRow) (d type source : String)
    → count_where (is_window d type source) rows ≤ 1
    → count_where
        (is_window d type source)
        (put_window (first_where (is_window w.device_id w.type w.source_ip) rows) w rows)
      ≤ 1
put_window_unique w rows d type source h =
    let q = is_window d type source in
    let counts = count-put_window q w rows (same_source d type source w) in
    elim (Bool-cases (q w)) [
      | inr e ↦ ground (arith, e)
      | inl e ↦
          let absent : first_where (is_window w.device_id w.type w.source_ip) rows ≡ none
              → count_where q rows ≡ 0 =
            λ n.
              let (a, b, c) = key_of d type source w e in
              ap (λ x. count_where (is_window x type source) rows) (sym a)
              ∙ ap (λ x. count_where (is_window w.device_id x source) rows) (sym b)
              ∙ ap (λ x. count_where (is_window w.device_id w.type x) rows) (sym c)
              ∙ count-absent (is_window w.device_id w.type w.source_ip) rows n in
          ground (arith, absent)
    ]
