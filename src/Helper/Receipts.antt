-- ===== src/Helper/Receipts.antt =====
-- `load`, `begin`, `save` and `write` of cmd/witshield-helper/receipt_cache.go.
pub mod Replay
use Prim.Native.String.{◌++◌ as cat}
use witshield.Base.{
  ℕ, zero, suc, ◌+◌, String, len, Bool, true, false, not, ◌&&◌, ◌||◌, Option, none, some, List, [],
  ◌∷◌, ◌++◌, ltb, leb, ◌==◌, str_eq, if◌then◌else◌,
}
use witshield.Base.Dict.{lookup, insert, delete}
use witshield.Engine.Types.{
  Operation, precheck, preview, apply, verify, rollback, execute, confirm, other,
}
use witshield.Engine.Seal.{codes}
use witshield.Helper.Files.{
  FileKind, regular, directory, symlink, special, File, Directory, Codec, Disk, ReceiptCache,
  HelperResponse, CachedReceipt, max_receipt_bytes,
}
use witshield.Helper.Capacity.{Outcome, ok, err, ensure_capacity}

-- The string of an operation.
unfoldable pub operation_text : Operation → String
operation_text precheck = "precheck"
operation_text preview = "preview"
operation_text apply = "apply"
operation_text verify = "verify"
operation_text rollback = "rollback"
operation_text execute = "execute"
operation_text confirm = "confirm"
operation_text (other name) = name

-- What a receipt is stored under and checked against.
pub record Identity : Type 0 where
  pub attempt_id : String
  pub action_id : String
  pub type : String
  pub operation : Operation
  pub parameters : String
  pub state : String

pub data Loaded : Type 0 where
  absent : Loaded
  cached : HelperResponse → Loaded
  unusable : String → Loaded

abbrev pub execution_indeterminate_message : String
execution_indeterminate_message =
    "privileged execution was interrupted after entering the helper; remote state is unknown and requires manual verification"

is_plain : FileKind → Bool
is_plain regular = true
is_plain _ = false

module _ (c : Codec) where
  -- `requestDigest`
  unfoldable pub request_digest : Identity → String
  unfolding operation_text
  request_digest i = c.sha256_hex (
      codes i.type
      ++ (0
          ∷ (codes (operation_text i.operation)
              ++ (0 ∷ (codes i.parameters ++ (0 ∷ codes i.state))))))

  -- `path`, as the name of the entry
  unfoldable pub path : String → String
  path attempt_id = cat (c.sha256_hex (codes attempt_id)) ".json"

  -- The tests of `load` on a decoded receipt.
  unfoldable pub check_receipt : Identity → CachedReceipt → Loaded
  unfolding request_digest
  check_receipt i item =
      if not (str_eq item.attempt_id i.attempt_id)
        || not (str_eq item.action_id i.action_id)
        || not (str_eq item.type i.type)
        || not (str_eq (operation_text item.operation) (operation_text i.operation))
        || not (str_eq item.request_digest (request_digest i))
      then unusable "action ID replayed with different operation or parameters"
      else if not (str_eq item.state "started") && not (str_eq item.state "final")
      then unusable "cached receipt has invalid state"
      else cached item.response

  -- The tests of `load` on the file of the receipt.
  load_file : Disk → Identity → File → Loaded
  unfolding check_receipt is_plain
  load_file disk i f =
      if not (is_plain f.kind) || not (f.perm == 0o600)
      then unusable "unsafe cached receipt"
      else if not (f.owner == disk.euid)
      then unusable "cached receipt has an unexpected owner"
      else if not disk.read_file_ok
      then unusable "read failed"
      else if ltb max_receipt_bytes (len f.content)
      then unusable "cached receipt too large"
      else elim (c.decode f.content) [
        | none ↦ unusable "invalid cached receipt"
        | some item ↦ check_receipt i item
      ]

  unfoldable pub load : Disk → Identity → Directory → Loaded
  unfolding load_file path
  load disk i entries =
      if not disk.lstat_ok
      then unusable "lstat failed"
      else elim (lookup (path i.attempt_id) entries) [ none ↦ absent | some f ↦ load_file disk i f ]

  new_file : Disk → String → File
  new_file disk content = record {
    kind = regular;
    perm = 0o600;
    owner = disk.euid;
    mod_time = disk.time;
    content = content;
  }

  -- The exclusive branch of `write`: a new file, which is removed again where a later step fails.
  write_new : Disk → String → String → Directory → Directory × Outcome (Unit {0})
  unfolding new_file
  write_new disk path content entries = elim (lookup path entries) [
    | some _ ↦ (entries, err "file exists")
    | none ↦
        if not disk.open_ok
        then (entries, err "open failed")
        else if not disk.write_ok
        then (entries, err "write failed")
        else if not disk.sync_ok
        then (entries, err "sync failed")
        else (insert path (new_file disk content) entries, ok tt)
  ]

  -- The other branch: a temporary file, which is no receipt by its name, renamed over the receipt.
  write_over : Disk → String → String → Directory → Directory × Outcome (Unit {0})
  unfolding new_file
  write_over disk path content entries =
      if not disk.open_ok
      then (entries, err "open failed")
      else if not disk.write_ok
      then (entries, err "write failed")
      else if not disk.rename_ok
      then (entries, err "rename failed")
      else (
        insert path (new_file disk content) entries,
        if disk.sync_ok then ok tt else err "sync failed",
      )

  write_file : Bool → Disk → String → String → Directory → Directory × Outcome (Unit {0})
  write_file true = write_new
  write_file false = write_over

  -- `write`
  unfoldable pub write :
      ReceiptCache
      → Disk
      → String
      → CachedReceipt
      → Bool
      → Directory
      → Directory × Outcome (Unit {0})
  unfolding write_new write_over write_file
  write cache disk path item exclusive entries =
      let content = c.marshal item in
      let (roomy, made) = ensure_capacity c cache disk (some (len content)) path entries in
      elim made [ err e ↦ (roomy, err e) | ok _ ↦ write_file exclusive disk path content roomy ]

  receipt_item : Identity → String → HelperResponse → CachedReceipt
  unfolding request_digest
  receipt_item i state response = record {
    attempt_id = i.attempt_id;
    action_id = i.action_id;
    type = i.type;
    operation = i.operation;
    request_digest = request_digest i;
    state = state;
    response = response;
  }

  unfoldable pub begin : ReceiptCache → Disk → Identity → Directory → Directory × Outcome (Unit {0})
  unfolding receipt_item path
  begin cache disk i entries =
      write cache disk (path i.attempt_id)
        (receipt_item i "started" (record {
          done = false;
          result = none;
          rollback_payload = "";
          audit_receipt = none;
          error = execution_indeterminate_message;
          processes = [];
          process_observed = 0;
          process_truncated = false;
        }))
        true entries

  unfoldable pub save :
      ReceiptCache → Disk → Identity → HelperResponse → Directory → Directory × Outcome (Unit {0})
  unfolding receipt_item path
  save cache disk i response entries =
      write cache disk (path i.attempt_id) (receipt_item i "final" response) false entries
