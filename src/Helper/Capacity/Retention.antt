-- ===== src/Helper/Capacity/Retention.antt =====
-- What `ensureCapacity` never removes (cmd/witshield-helper/receipt_cache.go).
use mathlib.Core.Path.{subst}
use witshield.Base.{
  ℕ, ◌+◌, ◌-◌, String, ◌≡◌, ◌≢◌, refl, sym, ap, ◌∙◌, ◌⊎◌, inl, inr, true, false, Option, none, some,
  List, [], ◌∷◌, All, str_eq, eq_iff, Bool-cases, arith,
}
use witshield.Base.Dict.{lookup, delete, Distinct, lookup-delete, delete-Distinct}
use witshield.Helper.Files.{File, Directory, Codec, Disk, ReceiptCache}
use witshield.Helper.Capacity.{
  FinalReceiptFile, Scan, Outcome, ok, err, is_counted, check_entry, add_entry, scan,
  insert_by_time, sort_by_time, Room, evict, conclude, make_room, ensure_capacity,
}

-- No receipt in the list is at `path`.
abbrev pub Avoids : String → List FinalReceiptFile → Type 0
Avoids path = All (λ f. f.path ≢ path)

-- A receipt that has started, or the one that is being replaced.
abbrev pub Protected : Codec → String → String → Directory → Type 0
Protected c replacing path entries =
    (path ≡ replacing)
    ⊎ ((f : File) × (lookup path entries ≡ some f) × (c.decode_state f.content ≡ some "started"))

pub Outcome-cases {ℓ} :
    {A : Type ℓ} (o : Outcome A) → ((a : A) × (o ≡ ok a)) ⊎ ((e : String) × (o ≡ err e))
Outcome-cases (ok a) = inl (a, refl)
Outcome-cases (err e) = inr (e, refl)

pub ok-injective {ℓ} : {A : Type ℓ} {a b : A} → ok a ≡ ok b → a ≡ b
ok-injective e = cc

lookup-absent :
    (path p : String) (f : File) (entries : Directory)
    → lookup path ((p, f) ∷ entries) ≡ none
    → (p ≢ path) × (lookup path entries ≡ none)
unfolding lookup
lookup-absent path p f entries h = ground (arith, eq_iff p path)

ne_of_false : {s t : String} → str_eq s t ≡ false → s ≢ t
ne_of_false {s} {t} h e = ground (arith, eq_iff s t)

-- Only a final receipt becomes removable.
add_entry-Avoids :
    (path p : String) (f : File) (state : String) (s : Scan)
    → (state ≡ "final" → p ≢ path)
    → Avoids path s.removable
    → Avoids path (add_entry p f state s).removable
unfolding add_entry
add_entry-Avoids path p f state s h a = ground (arith, eq_iff state "final")

module _ (c : Codec) (disk : Disk) where
  check_entry-state :
      (f : File) {state : String}
      → check_entry c disk f ≡ ok state
      → c.decode_state f.content ≡ some state
  unfolding check_entry
  check_entry-state f h = ground arith

  -- One round of the scan that went well.
  abbrev pub Round : String → String → File → Directory → Scan → Type 0
  Round replacing path f entries s =
      ((is_counted replacing path f ≡ false) × (scan c disk replacing entries ≡ ok s))
      ⊎ ((state : String) × (s' : Scan) × (is_counted replacing path f ≡ true)
          × (check_entry c disk f ≡ ok state)
          × (scan c disk replacing entries ≡ ok s')
          × (s ≡ add_entry path f state s'))

  pub scan-Round :
      (replacing path : String) (f : File) (entries : Directory) {s : Scan}
      → scan c disk replacing ((path, f) ∷ entries) ≡ ok s
      → Round replacing path f entries s
  unfolding scan
  scan-Round replacing path f entries {s} h = elim (Bool-cases (is_counted replacing path f)) [
    | inr skipped ↦ inl (skipped, ground arith)
    | inl counted ↦ elim (Outcome-cases (check_entry c disk f)) [
      | inr (e, bad) ↦ absurd (ground arith)
      | inl (state, good) ↦ elim (Outcome-cases (scan c disk replacing entries)) [
        | inr (e, bad) ↦ absurd (ground arith)
        | inl (s', rest) ↦ inr (state, s', counted, good, rest, ground arith)
      ]
    ]
  ]

  -- The protected receipt is counted as no final one.
  head-Protected :
      (replacing path q : String) (f : File) (entries : Directory)
      → Protected c replacing path ((q, f) ∷ entries)
      → str_eq q path ≡ true
      → is_counted replacing q f ≡ true
      → c.decode_state f.content ≡ some "final"
      → ⊥
  unfolding lookup is_counted
  head-Protected replacing path q f entries (inl p) here counted final =
      ground (arith, eq_iff q path, eq_iff q replacing)
  head-Protected replacing path q f entries (inr (g, found, started)) here counted final =
      ground (arith, eq_iff q path, eq_iff "started" "final")

  tail-Protected :
      (replacing path q : String) (f : File) (entries : Directory)
      → Protected c replacing path ((q, f) ∷ entries)
      → str_eq q path ≡ false
      → Protected c replacing path entries
  unfolding lookup
  tail-Protected replacing path q f entries (inl p) other = inl p
  tail-Protected replacing path q f entries (inr (g, found, started)) other =
      inr (g, ground arith, started)

  scan_absent :
      (replacing path : String) (entries : Directory) {s : Scan}
      → lookup path entries ≡ none
      → scan c disk replacing entries ≡ ok s
      → Avoids path s.removable
  scan_absent replacing path [] a h =
      unfold scan in subst (λ x. Avoids path x.removable) (ok-injective h) tt
  scan_absent replacing path ((p, f) ∷ entries) {s} a h =
      let (p_ne, absent) = lookup-absent path p f entries a in
      elim (scan-Round replacing p f entries h) [
        | inl (_, rest) ↦ scan_absent replacing path entries absent rest
        | inr (state, s', _, _, rest, e) ↦
            subst (λ x. Avoids path x.removable) (sym e)
              (add_entry-Avoids path p f state s' (λ _. p_ne)
                (scan_absent replacing path entries absent rest))
      ]

  scan-Avoids :
      (replacing path : String) (entries : Directory) {s : Scan}
      → Distinct entries
      → Protected c replacing path entries
      → scan c disk replacing entries ≡ ok s
      → Avoids path s.removable
  scan-Avoids replacing path [] d p h =
      unfold scan in subst (λ x. Avoids path x.removable) (ok-injective h) tt
  scan-Avoids replacing path ((q, f) ∷ entries) {s} d p h = elim (Bool-cases (str_eq q path)) [
    | inl here ↦ elim (scan-Round replacing q f entries h) [
      | inl (_, rest) ↦ scan_absent replacing path entries (absent_rest here) rest
      | inr (state, s', counted, good, rest, e) ↦
          subst (λ x. Avoids path x.removable) (sym e)
            (add_entry-Avoids path q f state s'
              (λ final. absurd (
                head-Protected replacing path q f entries p here counted
                  (check_entry-state f good ∙ ap some final)))
              (scan_absent replacing path entries (absent_rest here) rest))
    ]
    | inr other ↦
        let p' : Protected c replacing path entries =
          tail-Protected replacing path q f entries p other in
        elim (scan-Round replacing q f entries h) [
          | inl (_, rest) ↦ scan-Avoids replacing path entries d.1 p' rest
          | inr (state, s', _, _, rest, e) ↦
              subst (λ x. Avoids path x.removable) (sym e)
                (add_entry-Avoids path q f state s' (λ _. ne_of_false other)
                  (scan-Avoids replacing path entries d.1 p' rest))
        ]
  ]
    where
      absent_rest : str_eq q path ≡ true → lookup path entries ≡ none
      absent_rest e = subst (λ x. lookup x entries ≡ none) ((eq_iff q path).0 e) d.0

pub Avoids-insert_by_time :
    (path : String) (x : FinalReceiptFile) (xs : List FinalReceiptFile)
    → x.path ≢ path
    → Avoids path xs
    → Avoids path (insert_by_time x xs)
unfolding insert_by_time
Avoids-insert_by_time path x [] h a = (h, tt)
Avoids-insert_by_time path x (y ∷ ys) h a = ground (arith, Avoids-insert_by_time path x ys h a.1)

pub Avoids-sort_by_time :
    (path : String) (xs : List FinalReceiptFile) → Avoids path xs → Avoids path (sort_by_time xs)
unfolding sort_by_time
Avoids-sort_by_time path [] a = a
Avoids-sort_by_time path (x ∷ xs) a =
    Avoids-insert_by_time path x (sort_by_time xs) a.0 (Avoids-sort_by_time path xs a.1)

lookup-evict :
    (cache : ReceiptCache) (disk : Disk) (path : String) (fs : List FinalReceiptFile) (r : Room)
    → Avoids path fs
    → lookup path (evict cache disk fs r).0.entries ≡ lookup path r.entries
unfolding evict
lookup-evict cache disk path [] r a = refl
lookup-evict cache disk path (f ∷ fs) r a =
    let next : Room = record {
      entries = delete f.path r.entries;
      count = r.count - 1;
      total = r.total - f.size;
    } in
    ground (
      arith,
      eq_iff f.path path,
      lookup-delete f.path path r.entries,
      lookup-evict cache disk path fs next a.1,
    )

module _ (c : Codec) (cache : ReceiptCache) (disk : Disk) where
  lookup-make_room :
      (path : String) (entries : Directory) (fs : List FinalReceiptFile) (count total : ℕ)
      → Avoids path fs
      → lookup path (make_room cache disk entries fs count total).0 ≡ lookup path entries
  unfolding make_room conclude
  lookup-make_room path entries fs count total a =
      let r : Room = record { entries = entries; count = count; total = total } in
      ground
        (arith, lookup-evict cache disk path (sort_by_time fs) r (Avoids-sort_by_time path fs a))

  -- Making room removes neither a receipt that has started and has no final state yet, nor the
  -- receipt that is to be replaced, whether it succeeds or not.
  pub ensure_capacity_keeps :
      (add : Option ℕ) (replacing path : String) (entries : Directory)
      → Distinct entries
      → Protected c replacing path entries
      → lookup path (ensure_capacity c cache disk add replacing entries).0 ≡ lookup path entries
  unfolding ensure_capacity
  ensure_capacity_keeps none replacing path entries d p =
      elim (Outcome-cases (scan c disk replacing entries)) [
        | inr (e, bad) ↦ ground arith
        | inl (s, good) ↦ ground (
          arith,
          lookup-make_room path entries s.removable s.count s.total
              (scan-Avoids c disk replacing path entries d p good),
        )
      ]
  ensure_capacity_keeps (some required) replacing path entries d p =
      elim (Outcome-cases (scan c disk replacing entries)) [
        | inr (e, bad) ↦ ground arith
        | inl (s, good) ↦ ground (
          arith,
          lookup-make_room path entries s.removable (s.count + 1) (s.total + required)
              (scan-Avoids c disk replacing path entries d p good),
        )
      ]

evict-Distinct :
    (cache : ReceiptCache) (disk : Disk) (fs : List FinalReceiptFile) (r : Room)
    → Distinct r.entries
    → Distinct (evict cache disk fs r).0.entries
unfolding evict
evict-Distinct cache disk [] r d = d
evict-Distinct cache disk (f ∷ fs) r d =
    let next : Room = record {
      entries = delete f.path r.entries;
      count = r.count - 1;
      total = r.total - f.size;
    } in
    ground (arith, delete-Distinct f.path r.entries d, evict-Distinct cache disk fs next)

module _ (c : Codec) (cache : ReceiptCache) (disk : Disk) where
  make_room-Distinct :
      (entries : Directory) (fs : List FinalReceiptFile) (count total : ℕ)
      → Distinct entries
      → Distinct (make_room cache disk entries fs count total).0
  unfolding make_room conclude
  make_room-Distinct entries fs count total d =
      let r : Room = record { entries = entries; count = count; total = total } in
      ground (arith, evict-Distinct cache disk (sort_by_time fs) r d)

  pub ensure_capacity-Distinct :
      (add : Option ℕ) (replacing : String) (entries : Directory)
      → Distinct entries
      → Distinct (ensure_capacity c cache disk add replacing entries).0
  unfolding ensure_capacity
  ensure_capacity-Distinct none replacing entries d =
      elim (Outcome-cases (scan c disk replacing entries)) [
        | inr (e, bad) ↦ ground arith
        | inl (s, good) ↦ ground (arith, make_room-Distinct entries s.removable s.count s.total d)
      ]
  ensure_capacity-Distinct (some required) replacing entries d =
      elim (Outcome-cases (scan c disk replacing entries)) [
        | inr (e, bad) ↦ ground arith
        | inl (s, good) ↦
            ground
              (arith, make_room-Distinct entries s.removable (s.count + 1) (s.total + required) d)
      ]
