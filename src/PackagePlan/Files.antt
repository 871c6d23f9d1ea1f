-- ===== src/PackagePlan/Files.antt =====
-- The files of a transaction in internal/action/package_plan_guard.go: the directory that APT names, the
-- specification in it, and the result.
pub mod Readback
use Prim.Native.String.{◌++◌ as cat, slice}
use witshield.Base.{
  ℕ, ◌*◌, ◌^◌, String, len, Bool, true, false, not, ◌&&◌, ◌||◌, Option, none, some, List, ltb, ◌==◌,
  str_eq, if◌then◌else◌,
}
use witshield.Helper.Files.{FileKind, regular, directory}
use witshield.Helper.Capacity.{Outcome, ok, err}
use witshield.PackagePlan.Plan.{Line, Text}
use witshield.PackagePlan.Guard.{
  PackagePlanGuardSpec, PackagePlanGuardResult, validate_spec, run_package_plan_guard, is_result,
}

abbrev pub max_package_plan_bytes : ℕ
max_package_plan_bytes = 4 * 2 ^ 20

-- What Stat tells; the owner and the number of links where the system has them.
pub record FileInfo : Type 0 where
  pub kind : FileKind
  pub perm : ℕ
  pub owner : Option ℕ
  pub links : Option ℕ
  pub size : ℕ

pub record StoredFile : Type 0 where
  pub info : FileInfo
  pub content : String

-- path/filepath, the files that can be opened, encoding/json, and the user of the process.
pub record Os : Type 0 where
  pub is_abs : String → Bool
  pub clean : String → String
  pub eval_symlinks : String → Option String
  -- filepath.Rel
  pub rel : String → String → Option String
  pub lstat : String → Option FileInfo
  -- the specification of a directory
  pub open_spec : String → Option StoredFile
  -- one value and no more, without unknown fields
  pub decode_spec : String → Option PackagePlanGuardSpec
  pub encode_result : PackagePlanGuardResult → String
  pub decode_result : String → Option PackagePlanGuardResult
  pub euid : ℕ

is_regular_file : FileKind → Bool
is_regular_file regular = true
is_regular_file _ = false

is_directory : FileKind → Bool
is_directory directory = true
is_directory _ = false

unfoldable pub is_number : Option ℕ → ℕ → Bool
is_number none n = false
is_number (some m) n = m == n

-- A private file of the helper, with one name, of a size that is allowed.
unfoldable pub is_private_file : ℕ → FileInfo → Bool
unfolding is_regular_file is_number
is_private_file euid info = not (
    not (is_regular_file info.kind)
    || not (info.perm == 0o600)
    || not (is_number info.owner euid)
    || not (is_number info.links 1)
    || info.size == 0
    || ltb max_package_plan_bytes info.size)

unfoldable pub has_prefix : String → String → Bool
has_prefix prefix s = str_eq (slice s 0 (len prefix)) prefix

module _ (os : Os) where
  -- `pathWithin`
  unfoldable pub path_within : String → String → Bool
  unfolding has_prefix
  path_within root target = elim (os.rel root target) [
    | none ↦ false
    | some relative ↦
        not (str_eq relative ".")
        && not (str_eq relative "..")
        && not (has_prefix "../" relative)
        && not (os.is_abs relative)
  ]

  unfoldable pub validate_directory : String → String → Outcome String
  unfolding path_within is_directory is_number
  validate_directory transaction_dir allowed_base =
      if not (os.is_abs transaction_dir) || not (os.is_abs allowed_base)
      then err "package plan paths must be absolute"
      else elim (os.eval_symlinks (os.clean allowed_base)) [
        | none ↦ err "resolve package plan base"
        | some base ↦ elim (os.eval_symlinks (os.clean transaction_dir)) [
          | none ↦ err "resolve package plan transaction"
          | some dir ↦
              if not (path_within base dir)
              then err "package plan transaction escaped its private base directory"
              else elim (os.lstat dir) [
                | none ↦ err "inspect package plan transaction"
                | some info ↦
                    if not (is_directory info.kind) || not (info.perm == 0o700)
                    then err "package plan transaction directory is not a private real directory"
                    else if not (is_number info.owner os.euid)
                    then err "package plan transaction directory has an unexpected owner"
                    else ok dir
              ]
        ]
      ]

  unfoldable pub read_spec : String → Outcome PackagePlanGuardSpec
  unfolding is_private_file
  read_spec dir = elim (os.open_spec dir) [
    | none ↦ err "open package plan guard specification"
    | some file ↦
        if not (is_private_file os.euid file.info)
        then err "package plan guard specification failed ownership or shape validation"
        else elim (os.decode_spec file.content) [
          | none ↦ err "decode package plan guard specification"
          | some s ↦ elim (validate_spec s) [ some e ↦ err e | none ↦ ok s ]
        ]
  ]

  -- The specification of the directory that APT names.
  unfoldable pub spec_of : String → String → Outcome PackagePlanGuardSpec
  spec_of transaction_dir allowed_base = elim (validate_directory transaction_dir allowed_base) [
    | err e ↦ err e
    | ok dir ↦ read_spec dir
  ]

  -- `RunPackagePlanGuard`
  unfoldable pub run_guard :
      Text → String → String → Bool → List Line → Option PackagePlanGuardResult × Option String
  unfolding spec_of
  run_guard t transaction_dir allowed_base write_ok input =
      run_package_plan_guard t (spec_of transaction_dir allowed_base) write_ok input

  -- `readPackagePlanGuardResult`, from the file, if it can be opened.
  unfoldable pub read_result : Option StoredFile → Outcome PackagePlanGuardResult
  unfolding is_private_file
  read_result none = err "open package plan guard result"
  read_result (some file) =
      if not (is_private_file os.euid file.info)
      then err "package plan guard result failed ownership or shape validation"
      else elim (os.decode_result file.content) [
        | none ↦ err "decode package plan guard result"
        | some r ↦ if is_result r then ok r else err "invalid package plan guard result"
      ]
