-- ===== src/Helper/Capacity.antt =====
-- `ensureCapacity` of cmd/witshield-helper/receipt_cache.go.
pub mod Bounds
pub mod Retention
use witshield.Base.{
  ℕ, zero, suc, ◌+◌, ◌-◌, String, len, Bool, true, false, not, ◌&&◌, ◌||◌, Option, none, some, List,
  [], ◌∷◌, ltb, leb, ◌==◌, str_eq, if◌then◌else◌,
}
use witshield.Base.Dict.{lookup, delete}
use witshield.Helper.Files.{
  FileKind, regular, directory, symlink, special, File, Directory, Codec, Disk, ReceiptCache,
  max_receipt_bytes, is_json_name,
}

-- A final receipt that may be removed.
pub record FinalReceiptFile : Type 0 where
  pub path : String
  pub size : ℕ
  pub mod_time : ℕ

pub record Scan : Type 0 where
  pub count : ℕ
  pub total : ℕ
  pub removable : List FinalReceiptFile

pub data Outcome {ℓ} (A : Type ℓ) : Type ℓ where
  ok : A → Outcome A
  err : String → Outcome A

unfoldable pub is_entry_type : FileKind → Bool
is_entry_type directory = false
is_entry_type symlink = false
is_entry_type _ = true

is_regular : FileKind → Bool
is_regular regular = true
is_regular _ = false

-- The entries that the loop looks at.
unfoldable pub is_counted : String → String → File → Bool
unfolding is_entry_type
is_counted replacing path f =
    is_entry_type f.kind && is_json_name path && not (str_eq path replacing)

-- The checks of the loop on one counted entry: the state of its receipt, or the error.
pub check_entry : Codec → Disk → File → Outcome String
unfolding is_regular
check_entry c disk f =
    if not (is_regular f.kind) || not (f.perm == 0o600)
    then err "receipt cache contains an unsafe file"
    else if not (f.owner == disk.euid)
    then err "receipt cache contains a foreign-owned file"
    else if ltb max_receipt_bytes (len f.content)
    then err "receipt cache contains an oversized file"
    else elim (c.decode_state f.content) [
      | none ↦ err "receipt cache contains an invalid file"
      | some state ↦
          if str_eq state "started" || str_eq state "final"
          then ok state
          else err "receipt cache contains an invalid file"
    ]

pub add_entry : String → File → String → Scan → Scan
add_entry path f state s = record s {
  count = s.count + 1;
  total = s.total + len f.content;
  removable =
      if str_eq state "final"
      then record { path = path; size = len f.content; mod_time = f.mod_time } ∷ s.removable
      else s.removable;
}

-- The loop over the entries. It gathers the removable receipts in the reverse order, which the sort
-- makes up for.
pub scan : Codec → Disk → String → Directory → Outcome Scan
unfolding add_entry
scan c disk replacing [] = ok (record { count = 0; total = 0; removable = [] })
scan c disk replacing ((path, f) ∷ entries) =
    let rest = scan c disk replacing entries in
    if is_counted replacing path f
    then elim (check_entry c disk f) [
      | err e ↦ err e
      | ok state ↦ elim rest [ err e ↦ err e | ok s ↦ ok (add_entry path f state s) ]
    ]
    else rest

-- sort.Slice by `modTime.Before`; it may leave equal times in any order.
pub insert_by_time : FinalReceiptFile → List FinalReceiptFile → List FinalReceiptFile
insert_by_time x [] = x ∷ []
insert_by_time x (y ∷ ys) =
    let rest = insert_by_time x ys in if leb x.mod_time y.mod_time then x ∷ y ∷ ys else y ∷ rest

pub sort_by_time : List FinalReceiptFile → List FinalReceiptFile
unfolding insert_by_time
sort_by_time [] = []
sort_by_time (x ∷ xs) = insert_by_time x (sort_by_time xs)

unfoldable pub fits : ReceiptCache → ℕ → ℕ → Bool
fits cache count total = leb count cache.max_items && leb total cache.max_bytes

-- What the removal loop has left.
pub record Room : Type 0 where
  pub entries : Directory
  pub count : ℕ
  pub total : ℕ

-- The removal loop. It keeps what it has removed before a removal fails.
pub evict : ReceiptCache → Disk → List FinalReceiptFile → Room → Room × Outcome (Unit {0})
unfolding fits
evict cache disk [] r = (r, ok tt)
evict cache disk (f ∷ rest) r =
    let next = evict cache disk rest (record {
      entries = delete f.path r.entries;
      count = r.count - 1;
      total = r.total - f.size;
    }) in
    if fits cache r.count r.total
    then (r, ok tt)
    else if disk.remove_ok f.path
    then next
    else (r, err "remove failed")

pub conclude : ReceiptCache → Disk → Room × Outcome (Unit {0}) → Directory × Outcome (Unit {0})
unfolding fits
conclude cache disk (r, err e) = (r.entries, err e)
conclude cache disk (r, ok _) =
    if not (fits cache r.count r.total)
    then (r.entries, err "receipt cache capacity reached; unresolved started actions are retained")
    else if disk.sync_ok
    then (r.entries, ok tt)
    else (r.entries, err "sync failed")

-- After the scan: `count` and `total` are those with the new receipt.
pub make_room :
    ReceiptCache → Disk → Directory → List FinalReceiptFile → ℕ → ℕ → Directory × Outcome (Unit {0})
unfolding fits
make_room cache disk entries removable count total =
    if fits cache count total
    then (entries, ok tt)
    else conclude cache disk (
        evict cache disk (sort_by_time removable)
          (record { entries = entries; count = count; total = total }))

-- `ensureCapacity`; `add` is none for false, and the required bytes for true.
pub ensure_capacity :
    Codec → ReceiptCache → Disk → Option ℕ → String → Directory → Directory × Outcome (Unit {0})
ensure_capacity c cache disk add replacing entries =
    if disk.read_ok
    then elim (scan c disk replacing entries) [
      | err e ↦ (entries, err e)
      | ok s ↦ elim add [
        | none ↦ make_room cache disk entries s.removable s.count s.total
        | some required ↦
            make_room cache disk entries s.removable (s.count + 1) (s.total + required)
      ]
    ]
    else (entries, err "read failed")

-- Opens every part, for a run at a concrete input.
unfoldable pub capacity : Unit {0}
unfolding check_entry scan sort_by_time evict conclude make_room ensure_capacity is_counted
capacity = tt
