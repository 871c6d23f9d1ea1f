-- ===== src/Helper/Receipts/Replay.antt =====
-- What writing and loading receipts does to a receipt that is there
-- (cmd/witshield-helper/receipt_cache.go).
use witshield.Base.{
  String, len, ◌≡◌, ◌≢◌, refl, ◌∙◌, inl, inr, Bool, true, false, none, some, eq_iff, Option-cases,
  arith,
}
use witshield.Base.Dict.{lookup, insert, Distinct, lookup-insert, insert-Distinct}
use witshield.Helper.Files.{
  File, Directory, Codec, Disk, ReceiptCache, HelperResponse, CachedReceipt,
}
use witshield.Helper.Capacity.{ok, ensure_capacity}
use witshield.Helper.Capacity.Retention.{ensure_capacity_keeps, ensure_capacity-Distinct}
use witshield.Helper.Receipts.{
  Identity, absent, path, load, write, begin, save, new_file, check_receipt, load_file, write_file,
  write_new, write_over,
}

-- A receipt of an execution that has started and has no result yet.
pub record IsStarted (c : Codec) (p : String) (f : File) (entries : Directory) : Type 0 where
  pub stored : lookup p entries ≡ some f
  pub started : c.decode_state f.content ≡ some "started"

module _ (c : Codec) (cache : ReceiptCache) (disk : Disk) (own : String) (item : CachedReceipt)
    (exclusive : Bool) (entries : Directory) (d : Distinct entries) where
  write-Distinct : Distinct (write c cache disk own item exclusive entries).0
  unfolding write
  write-Distinct =
      let roomy =
        ensure_capacity-Distinct c cache disk (some (len (c.marshal item))) own entries d in
      let m = (ensure_capacity c cache disk (some (len (c.marshal item))) own entries).0 in
      ground (arith, insert-Distinct own (new_file c disk (c.marshal item)) m roomy)

  -- A started receipt of another attempt stays.
  write-IsStarted :
      (p : String) (f : File)
      → p ≢ own
      → IsStarted c p f entries
      → IsStarted c p f (write c cache disk own item exclusive entries).0
  unfolding write
  write-IsStarted p f other s =
      let m = (ensure_capacity c cache disk (some (len (c.marshal item))) own entries).0 in
      let kept : lookup p m ≡ some f =
        ensure_capacity_keeps c cache disk (some (len (c.marshal item))) own p entries d
          (inr (f, s.stored, s.started))
        ∙ s.stored in
      record {
        stored =
            ground (arith, eq_iff own p, lookup-insert own p (new_file c disk (c.marshal item)) m);
        started = s.started;
      }

check_receipt-present :
    (c : Codec) (i : Identity) (item : CachedReceipt) → check_receipt c i item ≢ absent
unfolding check_receipt
check_receipt-present c i item e = ground arith

load_file-present :
    (c : Codec) (disk : Disk) (i : Identity) (f : File) → load_file c disk i f ≢ absent
unfolding load_file
load_file-present c disk i f e = elim (Option-cases (c.decode f.content)) [
  | inr (item, h) ↦ ground (arith, check_receipt-present c i item)
  | inl h ↦ ground arith
]

-- There is an entry with the name.
abbrev pub Present : String → Directory → Type 0
Present p entries = lookup p entries ≢ none

-- A receipt that is there keeps the engine away.
pub load-Present :
    (c : Codec) (disk : Disk) (i : Identity) (entries : Directory)
    → Present (path c i.attempt_id) entries
    → load c disk i entries ≢ absent
unfolding load
load-Present c disk i entries present e =
    elim (Option-cases (lookup (path c i.attempt_id) entries)) [
      | inl h ↦ absurd (present h)
      | inr (f, h) ↦ ground (arith, load_file-present c disk i f)
    ]

module _ (c : Codec) (disk : Disk) (own content : String) (entries : Directory) where
  Present-new : Present own (insert own (new_file c disk content) entries)
  Present-new e =
      ground (arith, lookup-insert own own (new_file c disk content) entries, eq_iff own own)

  write_file-Present :
      (exclusive : Bool)
      → Present own entries
      → Present own (write_file c exclusive disk own content entries).0
  unfolding write_file write_new write_over
  write_file-Present true present e = ground (arith, Present-new)
  write_file-Present false present e = ground (arith, Present-new)

  write_file-stored :
      (exclusive : Bool) {u : Unit {0}}
      → (write_file c exclusive disk own content entries).1 ≡ ok u
      → Present own (write_file c exclusive disk own content entries).0
  unfolding write_file write_new write_over
  write_file-stored true h e = ground (arith, Present-new)
  write_file-stored false h e = ground (arith, Present-new)

module _ (c : Codec) (cache : ReceiptCache) (disk : Disk) (own : String) (item : CachedReceipt)
    (exclusive : Bool) (entries : Directory) where
  -- The receipt that is written over stays there, whatever goes wrong.
  write-Present :
      Distinct entries
      → Present own entries
      → Present own (write c cache disk own item exclusive entries).0
  unfolding write
  write-Present d present e =
      let m = (ensure_capacity c cache disk (some (len (c.marshal item))) own entries).0 in
      let kept : lookup own m ≡ lookup own entries =
        ensure_capacity_keeps c cache disk (some (len (c.marshal item))) own own entries d
          (inl refl) in
      ground (arith, write_file-Present c disk own (c.marshal item) m exclusive)

  write-stored :
      {u : Unit {0}}
      → (write c cache disk own item exclusive entries).1 ≡ ok u
      → Present own (write c cache disk own item exclusive entries).0
  unfolding write
  write-stored h e =
      let m = (ensure_capacity c cache disk (some (len (c.marshal item))) own entries).0 in
      ground (arith, write_file-stored c disk own (c.marshal item) m exclusive)

module _ (c : Codec) (cache : ReceiptCache) (disk : Disk) (i : Identity) (entries : Directory) where
  pub begin-Distinct : Distinct entries → Distinct (begin c cache disk i entries).0
  unfolding begin
  begin-Distinct d = write-Distinct c cache disk (path c i.attempt_id) _ true entries d

  pub begin-IsStarted :
      Distinct entries
      → (p : String) (f : File) → p ≢ path c i.attempt_id
      → IsStarted c p f entries
      → IsStarted c p f (begin c cache disk i entries).0
  unfolding begin
  begin-IsStarted d p f = write-IsStarted c cache disk (path c i.attempt_id) _ true entries d p f

  -- Where `begin` succeeds, the receipt of the attempt is there.
  pub begin-stored :
      {u : Unit {0}}
      → (begin c cache disk i entries).1 ≡ ok u
      → Present (path c i.attempt_id) (begin c cache disk i entries).0
  unfolding begin
  begin-stored h = write-stored c cache disk (path c i.attempt_id) _ true entries h

  module _ (response : HelperResponse) where
    pub save-Distinct : Distinct entries → Distinct (save c cache disk i response entries).0
    unfolding save
    save-Distinct d = write-Distinct c cache disk (path c i.attempt_id) _ false entries d

    pub save-IsStarted :
        Distinct entries
        → (p : String) (f : File) → p ≢ path c i.attempt_id
        → IsStarted c p f entries
        → IsStarted c p f (save c cache disk i response entries).0
    unfolding save
    save-IsStarted d p f = write-IsStarted c cache disk (path c i.attempt_id) _ false entries d p f

    pub save-Present :
        Distinct entries
        → Present (path c i.attempt_id) entries
        → Present (path c i.attempt_id) (save c cache disk i response entries).0
    unfolding save
    save-Present d present =
        write-Present c cache disk (path c i.attempt_id) _ false entries d present
