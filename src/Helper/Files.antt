-- ===== src/Helper/Files.antt =====
-- The receipt directory of cmd/witshield-helper/receipt_cache.go: files by the name of their entry,
-- and what the helper takes from the operating system, encoding/json and crypto/sha256.
use witshield.Base.{ℕ, ◌*◌, ◌^◌, String, Bool, ◌||◌, Option, List, str_eq}
use witshield.Engine.Types.{Operation, Result, Receipt}

pub data FileKind : Type 0 where
  regular directory symlink special : FileKind

pub record File : Type 0 where
  pub kind : FileKind
  pub perm : ℕ
  pub owner : ℕ
  pub mod_time : ℕ
  pub content : String

abbrev pub Directory : Type 0
Directory = List (String × File)

-- `helperResponse` (main.go).
pub record HelperResponse : Type 0 where
  pub done : Bool
  pub result : Option Result
  pub rollback_payload : String
  pub audit_receipt : Option Receipt
  pub error : String
  pub processes : List String
  pub process_observed : ℕ
  pub process_truncated : Bool

pub record CachedReceipt : Type 0 where
  pub attempt_id : String
  pub action_id : String
  pub type : String
  pub operation : Operation
  pub request_digest : String
  pub state : String
  pub response : HelperResponse

pub record Codec : Type 0 where
  -- json.Marshal, and the strict decoding of one value
  pub marshal : CachedReceipt → String
  pub decode : String → Option CachedReceipt
  -- json.Unmarshal of the member `state` alone
  pub decode_state : String → Option String
  -- the hexadecimal SHA-256
  pub sha256_hex : List ℕ → String

-- How the operating system answers the calls of one load or write.
pub record Disk : Type 0 where
  -- os.Lstat of a receipt, where it fails otherwise than for an entry that is not there
  pub lstat_ok : Bool
  -- os.ReadFile of a receipt
  pub read_file_ok : Bool
  -- os.Remove of an entry
  pub remove_ok : String → Bool
  -- opening the new file, or the temporary one with its Chmod
  pub open_ok : Bool
  -- Write, Sync and Close of the new file
  pub write_ok : Bool
  pub rename_ok : Bool
  -- syncDirectory
  pub sync_ok : Bool
  -- os.ReadDir
  pub read_ok : Bool
  -- the user of the helper, and the time of the write
  pub euid : ℕ
  pub time : ℕ

pub record ReceiptCache : Type 0 where
  pub max_items : ℕ
  pub max_bytes : ℕ

-- The limits that `newReceiptCache` sets.
abbrev pub receipt_cache : ReceiptCache
receipt_cache = record { max_items = 10000; max_bytes = 128 * 2 ^ 20 }

abbrev pub max_receipt_bytes : ℕ
max_receipt_bytes = 4 * 2 ^ 20

unfoldable pub has_suffix : String → String → Bool
has_suffix suffix String.[] = str_eq String.[] suffix
has_suffix suffix (String.◌∷◌ c s) = str_eq (String.◌∷◌ c s) suffix || has_suffix suffix s

-- `filepath.Ext(name) == ".json"`
unfoldable pub is_json_name : String → Bool
unfolding has_suffix
is_json_name = has_suffix ".json"
