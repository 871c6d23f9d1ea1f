-- ===== src/Helper/Capacity/Bounds.antt =====
-- After `ensureCapacity` succeeds the receipts fit, the new one included
-- (cmd/witshield-helper/receipt_cache.go).
use mathlib.Core.Path.{subst}
use witshield.Base.{
  ℕ, suc, ◌+◌, ◌-◌, ◌≤◌, String, len, ◌≡◌, ◌≢◌, refl, sym, ap, inl, inr, true, false, none, some,
  List, [], ◌∷◌, leb, str_eq, if◌then◌else◌, eq_iff, Bool-cases, arith,
}
use witshield.Base.Dict.{lookup, delete, Distinct, lookup-delete, delete-Distinct}
use witshield.Helper.Files.{File, Directory, Codec, Disk, ReceiptCache}
use witshield.Helper.Capacity.{
  FinalReceiptFile, Scan, Outcome, ok, err, is_counted, add_entry, scan, insert_by_time,
  sort_by_time, fits, Room, evict, conclude, make_room, ensure_capacity,
}
use witshield.Helper.Capacity.Retention.{
  Avoids, scan-Round, Avoids-insert_by_time, Avoids-sort_by_time, Outcome-cases, ok-injective,
}

-- The receipts of the directory, and their bytes, without the one that is to be replaced.
unfoldable pub count_receipts : String → Directory → ℕ
count_receipts replacing [] = 0
count_receipts replacing ((path, f) ∷ m) =
    let rest = count_receipts replacing m in if is_counted replacing path f then suc rest else rest

unfoldable pub sum_bytes : String → Directory → ℕ
sum_bytes replacing [] = 0
sum_bytes replacing ((path, f) ∷ m) =
    let rest = sum_bytes replacing m in
    if is_counted replacing path f then len f.content + rest else rest

module _ (replacing : String) where
  -- The receipt of a removable entry.
  record Is (m : Directory) (r : FinalReceiptFile) (f : File) : Type 0 where
    found : lookup r.path m ≡ some f
    counted : is_counted replacing r.path f ≡ true
    sized : r.size ≡ len f.content

  -- The removable receipts are different entries of the directory.
  abbrev Backed : Directory → List FinalReceiptFile → Type 0
  Backed m [] = Unit
  Backed m (r ∷ rs) = ((f : File) × Is m r f) × Avoids r.path rs × Backed m rs

  delete_absent : (path : String) (m : Directory) → lookup path m ≡ none → delete path m ≡ m
  unfolding delete lookup
  delete_absent path [] h = refl
  delete_absent path ((q, f) ∷ m) h = ground (arith, delete_absent path m)

  count-delete :
      (m : Directory) (r : FinalReceiptFile) (f : File)
      → Distinct m
      → Is m r f
      → count_receipts replacing (delete r.path m) + 1 ≡ count_receipts replacing m
  unfolding count_receipts delete lookup
  count-delete [] r f d i = absurd (ground arith)
  count-delete ((q, g) ∷ m) r f d i = elim (Bool-cases (str_eq q r.path)) [
    | inl here ↦ rw here (ground (arith, eq_iff q r.path, delete_absent r.path m))
    | inr other ↦ rw other (
        ground (
          arith,
          count-delete m r f d.1
              (record { found = ground arith; counted = i.counted; sized = i.sized }),
        ))
  ]

  sum-delete :
      (m : Directory) (r : FinalReceiptFile) (f : File)
      → Distinct m
      → Is m r f
      → sum_bytes replacing (delete r.path m) + r.size ≡ sum_bytes replacing m
  unfolding sum_bytes delete lookup
  sum-delete [] r f d i = absurd (ground arith)
  sum-delete ((q, g) ∷ m) r f d i = elim (Bool-cases (str_eq q r.path)) [
    | inl here ↦ rw here (ground (arith, eq_iff q r.path, delete_absent r.path m))
    | inr other ↦ rw other (
        ground (
          arith,
          sum-delete m r f d.1
              (record { found = ground arith; counted = i.counted; sized = i.sized }),
        ))
  ]

  -- Removing another entry.
  Is-delete :
      (m : Directory) (path : String) (r : FinalReceiptFile) (f : File)
      → r.path ≢ path
      → Is m r f
      → Is (delete path m) r f
  Is-delete m path r f ne i = record {
    found = ground (arith, lookup-delete path r.path m, eq_iff path r.path, i.found);
    counted = i.counted;
    sized = i.sized;
  }

  Backed-delete :
      (m : Directory) (path : String) (rs : List FinalReceiptFile)
      → Avoids path rs
      → Backed m rs
      → Backed (delete path m) rs
  Backed-delete m path [] a b = tt
  Backed-delete m path (r ∷ rs) a b =
      let (f, i) = b.0 in ((f, Is-delete m path r f a.0 i), b.1, Backed-delete m path rs a.1 b.2)

  -- The loop's counters are right, for a new receipt of `more` files and `required` bytes.
  record IsCounted (more required : ℕ) (r : Room) : Type 0 where
    right_count : r.count ≡ count_receipts replacing r.entries + more
    right_total : r.total ≡ sum_bytes replacing r.entries + required

  evict-IsCounted :
      (cache : ReceiptCache) (disk : Disk) (more required : ℕ) (rs : List FinalReceiptFile)
      (r : Room)
      → Distinct r.entries
      → Backed r.entries rs
      → IsCounted more required r
      → IsCounted more required (evict cache disk rs r).0
  unfolding evict
  evict-IsCounted cache disk more required [] r d b k = k
  evict-IsCounted cache disk more required (x ∷ rs) r d b k =
      let (f, i) = b.0 in
      let next : Room = record {
        entries = delete x.path r.entries;
        count = r.count - 1;
        total = r.total - x.size;
      } in
      let k' : IsCounted more required next = record {
        right_count = omega (arith, count-delete r.entries x f d i, k.right_count);
        right_total = omega (arith, sum-delete r.entries x f d i, k.right_total);
      } in
      let later =
        evict-IsCounted cache disk more required rs next (delete-Distinct x.path r.entries d)
          (Backed-delete r.entries x.path rs b.1 b.2) k' in
      elim (Bool-cases (fits cache r.count r.total)) [
        | inl done ↦ rw done k
        | inr full ↦ rw full (elim (Bool-cases (disk.remove_ok x.path)) [
          | inl removed ↦ rw removed later
          | inr kept ↦ rw kept k
        ])
      ]

  -- The entry in front hides none of the entries behind it.
  Backed-cons :
      (p : String) (f : File) (m : Directory) (rs : List FinalReceiptFile)
      → lookup p m ≡ none
      → Backed m rs
      → Backed ((p, f) ∷ m) rs × Avoids p rs
  Backed-cons p f m [] h b = (tt, tt)
  Backed-cons p f m (r ∷ rs) h b =
      let (g, i) = b.0 in
      let (b', a) = Backed-cons p f m rs h b.2 in
      let differs : r.path ≢ p = (λ e. absurd (ground (arith, i.found, ap (λ x. lookup x m) e))) in
      let i' : Is ((p, f) ∷ m) r g = record {
        found = unfold lookup in ground (arith, eq_iff p r.path, i.found);
        counted = i.counted;
        sized = i.sized;
      } in
      (((g, i'), b.1, b'), (differs, a))

  insert_by_time-Backed :
      (m : Directory) (x : FinalReceiptFile) (xs : List FinalReceiptFile)
      → ((f : File) × Is m x f)
      → Avoids x.path xs
      → Backed m xs
      → Backed m (insert_by_time x xs)
  unfolding insert_by_time
  insert_by_time-Backed m x [] h a b = (h, tt, tt)
  insert_by_time-Backed m x (y ∷ ys) h a b = elim (Bool-cases (leb x.mod_time y.mod_time)) [
    | inl first ↦ rw first (h, a, b)
    | inr later ↦ rw later (
      b.0,
      Avoids-insert_by_time y.path x ys (λ e. a.0 (sym e)) b.1,
      insert_by_time-Backed m x ys h a.1 b.2,
    )
  ]

  sort_by_time-Backed :
      (m : Directory) (xs : List FinalReceiptFile) → Backed m xs → Backed m (sort_by_time xs)
  unfolding sort_by_time
  sort_by_time-Backed m [] b = b
  sort_by_time-Backed m (x ∷ xs) b =
      insert_by_time-Backed m x (sort_by_time xs) b.0 (Avoids-sort_by_time x.path xs b.1)
        (sort_by_time-Backed m xs b.2)

  module _ (c : Codec) (disk : Disk) where
    record Scanned (m : Directory) (s : Scan) : Type 0 where
      backed : Backed m s.removable
      scanned_count : s.count ≡ count_receipts replacing m
      scanned_total : s.total ≡ sum_bytes replacing m

    skip-Scanned :
        (p : String) (f : File) (m : Directory) (s : Scan)
        → lookup p m ≡ none
        → is_counted replacing p f ≡ false
        → Scanned m s
        → Scanned ((p, f) ∷ m) s
    unfolding count_receipts sum_bytes
    skip-Scanned p f m s absent skipped t = record {
      backed = (Backed-cons p f m s.removable absent t.backed).0;
      scanned_count = rw skipped t.scanned_count;
      scanned_total = rw skipped t.scanned_total;
    }

    head-Is :
        (p : String) (f : File) (m : Directory)
        → is_counted replacing p f ≡ true
        → Is ((p, f) ∷ m) (record { path = p; size = len f.content; mod_time = f.mod_time }) f
    unfolding lookup
    head-Is p f m counted = record {
      found = ground (arith, eq_iff p p);
      counted = counted;
      sized = refl;
    }

    add-Backed :
        (p : String) (f : File) (m : Directory) (state : String) (s : Scan)
        → lookup p m ≡ none
        → is_counted replacing p f ≡ true
        → Backed m s.removable
        → Backed ((p, f) ∷ m) (add_entry p f state s).removable
    unfolding add_entry
    add-Backed p f m state s absent counted b =
        let (b', a) = Backed-cons p f m s.removable absent b in
        elim (Bool-cases (str_eq state "final")) [
          | inl final ↦ rw final ((f, head-Is p f m counted), a, b')
          | inr other ↦ rw other b'
        ]

    add-Scanned :
        (p : String) (f : File) (m : Directory) (state : String) (s : Scan)
        → lookup p m ≡ none
        → is_counted replacing p f ≡ true
        → Scanned m s
        → Scanned ((p, f) ∷ m) (add_entry p f state s)
    unfolding count_receipts sum_bytes add_entry
    add-Scanned p f m state s absent counted t = record {
      backed = add-Backed p f m state s absent counted t.backed;
      scanned_count = rw counted (omega (arith, t.scanned_count));
      scanned_total = rw counted (omega (arith, t.scanned_total));
    }

    scan-Scanned :
        (m : Directory) {s : Scan} → Distinct m → scan c disk replacing m ≡ ok s → Scanned m s
    unfolding scan count_receipts sum_bytes
    scan-Scanned [] {s} d h =
        subst (Scanned []) (ok-injective h)
          (record { backed = tt; scanned_count = refl; scanned_total = refl })
    scan-Scanned ((p, f) ∷ m) {s} d h = elim (scan-Round c disk replacing p f m h) [
      | inl (skipped, rest) ↦ skip-Scanned p f m s d.0 skipped (scan-Scanned m d.1 rest)
      | inr (state, s', counted, good, rest, e) ↦
          subst (Scanned ((p, f) ∷ m)) (sym e)
            (add-Scanned p f m state s' d.0 counted (scan-Scanned m d.1 rest))
    ]

  module _ (cache : ReceiptCache) (disk : Disk) where
    -- What success promises of the directory, for a new receipt of `more` files and `required` bytes.
    pub record Fits (more required : ℕ) (m : Directory) : Type 0 where
      pub items_fit : count_receipts replacing m + more ≤ cache.max_items
      pub bytes_fit : sum_bytes replacing m + required ≤ cache.max_bytes

    conclude-Fits :
        (more required : ℕ) (r : Room) (o : Outcome (Unit {0}))
        → IsCounted more required r
        → (conclude cache disk (r, o)).1 ≡ ok tt
        → Fits more required (conclude cache disk (r, o)).0
    unfolding conclude
    conclude-Fits more required r (err e) k h = absurd (ground arith)
    conclude-Fits more required r (ok _) k h = ground arith

    make_room-Fits :
        (m : Directory) (fs : List FinalReceiptFile) (more required count total : ℕ)
        → Distinct m
        → Backed m fs
        → count ≡ count_receipts replacing m + more
        → total ≡ sum_bytes replacing m + required
        → (make_room cache disk m fs count total).1 ≡ ok tt
        → Fits more required (make_room cache disk m fs count total).0
    unfolding make_room fits
    make_room-Fits m fs more required count total d b e₁ e₂ h =
        let r : Room = record { entries = m; count = count; total = total } in
        let k =
          evict-IsCounted cache disk more required (sort_by_time fs) r d
            (sort_by_time-Backed m fs b) (record { right_count = e₁; right_total = e₂ }) in
        let (r', o) = evict cache disk (sort_by_time fs) r in
        ground (arith, conclude-Fits more required r' o k)

module _ (c : Codec) (cache : ReceiptCache) (disk : Disk) (required : ℕ) (replacing : String)
    (m : Directory) (d : Distinct m) where
  -- When room for a new receipt of `required` bytes is made, the receipts fit both limits together
  -- with it.
  pub ensure_capacity_fits :
      (ensure_capacity c cache disk (some required) replacing m).1 ≡ ok tt
      → let m' = (ensure_capacity c cache disk (some required) replacing m).0 in
        (count_receipts replacing m' + 1 ≤ cache.max_items)
        × (sum_bytes replacing m' + required ≤ cache.max_bytes)
  unfolding ensure_capacity
  ensure_capacity_fits h = elim (Outcome-cases (scan c disk replacing m)) [
    | inr (e, bad) ↦ absurd (ground arith)
    | inl (s, good) ↦
        let t = scan-Scanned replacing c disk m d good in
        ground (
          arith,
          make_room-Fits replacing cache disk m s.removable 1 required (s.count + 1)
              (s.total + required) d t.backed,
        )
  ]

  -- Nothing is removed while the receipts and the new one fit.
  ensure_capacity_spares :
      count_receipts replacing m + 1 ≤ cache.max_items
      → sum_bytes replacing m + required ≤ cache.max_bytes
      → (ensure_capacity c cache disk (some required) replacing m).0 ≡ m
  unfolding ensure_capacity make_room fits
  ensure_capacity_spares few small = elim (Outcome-cases (scan c disk replacing m)) [
    | inr (e, bad) ↦ ground arith
    | inl (s, good) ↦ let t = scan-Scanned replacing c disk m d good in ground (arith, t)
  ]
