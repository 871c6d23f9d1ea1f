-- ===== src/Helper/Examples.antt =====
-- Runs of the privileged helper at concrete inputs.
use witshield.Base.{ℕ, ◌+◌, ◌≤◌, String, ◌≡◌, refl, ap, ◌⊎◌, inr, true, none, some, List, [], ◌∷◌}
use witshield.Base.Dict.{lookup, insert, delete, Distinct}
use witshield.Engine.Types.{execute}
use witshield.Engine.Seal.{valid_state}
use witshield.Engine.Toy.{toy, engine, pop}
use witshield.Engine.Requests.{run, action_id_ok}
use witshield.Engine.Lifecycle.{lifecycle}
use witshield.Helper.Files.{
  regular, File, Directory, CachedReceipt, Codec, Disk, ReceiptCache, is_json_name,
}
use witshield.Helper.Capacity.{ok, ensure_capacity, capacity}
use witshield.Helper.Capacity.Retention.{ensure_capacity_keeps}
use witshield.Helper.Capacity.Bounds.{count_receipts, sum_bytes, ensure_capacity_fits}
use witshield.Helper.Receipts.{operation_text, path, load, begin, save, write}
use witshield.Helper.Receipts.Replay.{IsStarted}
use witshield.Helper.Server.{
  HelperRequest, Incoming, Server, World, Circumstances, blank, handle, is_cacheable,
  effective_operation, server,
}
use witshield.Helper.Server.Once.{handle_all, at_most_once, interrupted_stays_away}

abbrev item_of : String → CachedReceipt
item_of state = record {
  attempt_id = "a1";
  action_id = "a1";
  type = "push";
  operation = execute;
  request_digest = "h";
  state = state;
  response = blank;
}

-- A receipt is written as its state, and every hash is one text.
abbrev codec : Codec
codec = record {
  marshal = λ item. item.state;
  decode = λ content. some (item_of content);
  decode_state = λ content. some content;
  sha256_hex = λ _. "h";
}

abbrev disk : Disk
disk = record {
  remove_ok = λ _. true;
  open_ok = true;
  write_ok = true;
  rename_ok = true;
  sync_ok = true;
  lstat_ok = true;
  read_file_ok = true;
  read_ok = true;
  euid = 0;
  time = 9;
}

abbrev receipt_file : String → ℕ → File
receipt_file state time = record {
  kind = regular;
  perm = 0o600;
  owner = 0;
  mod_time = time;
  content = state;
}

abbrev three : Directory
three =
    ("a.json", receipt_file "final" 5)
    ∷ ("b.json", receipt_file "started" 1)
    ∷ ("c.json", receipt_file "final" 3)
    ∷ []

abbrev small : ReceiptCache
small = record { max_items = 3; max_bytes = 100 }

three-Distinct : Distinct three
unfolding lookup
three-Distinct = (refl, (refl, (refl, tt)))

-- Room is made for a new receipt: the older of the two final receipts goes.
room_made :
    ensure_capacity codec small disk (some 5) "d.json" three
    ≡ (("a.json", receipt_file "final" 5) ∷ ("b.json", receipt_file "started" 1) ∷ [], ok tt)
unfolding capacity is_json_name lookup delete
room_made = refl

ensure_capacity_keeps_example :
    lookup "b.json" (ensure_capacity codec small disk (some 5) "d.json" three).0
    ≡ lookup "b.json" three
ensure_capacity_keeps_example =
    ensure_capacity_keeps codec small disk (some 5) "d.json" "b.json" three three-Distinct
      (inr (receipt_file "started" 1, unfold lookup in refl, refl))

ensure_capacity_fits_example :
    let m' = (ensure_capacity codec small disk (some 5) "d.json" three).0 in
    (count_receipts "d.json" m' + 1 ≤ 3) × (sum_bytes "d.json" m' + 5 ≤ 100)
ensure_capacity_fits_example =
    ensure_capacity_fits codec small disk 5 "d.json" three three-Distinct (ap (λ x. x.1) room_made)

abbrev helper : Server (List ℕ)
helper = record {
  engine = engine none;
  receipts = some small;
  token = "secret";
  observe_processes = none;
}

abbrev ask : HelperRequest
ask = record {
  token = "secret";
  kind = "";
  attempt_id = "a1";
  action_id = "a1";
  type = "push";
  operation = execute;
  parameters = "{}";
  state = "";
  rollback_payload = "";
}

abbrev line : Incoming
line = record { size = 100; decoded = some ask; peer_uid = some 0 }

abbrev meets : Circumstances
meets = record { receipt_id = "r"; at_load = disk; at_begin = disk; at_save = disk }

abbrev start : World (List ℕ)
start = record { entries = []; host = 7 ∷ [] }

abbrev decimal : ℕ → String
decimal _ = "0"

helper_opened : Unit {0}
unfolding lookup insert delete capacity is_json_name begin save write load path server lifecycle run
    action_id_ok effective_operation pop valid_state
helper_opened = tt

-- The first request pushes the number, and the second finds its receipt.
once_run :
    let (w, first) = handle toy codec helper decimal meets line start in
    let (w', second) = handle toy codec helper decimal meets line w in
    (w.host ≡ 1 ∷ 7 ∷ []) × (first.done ≡ true) × (w'.host ≡ 1 ∷ 7 ∷ [])
unfolding helper_opened
once_run = (refl, refl, refl)

at_most_once_example :
    let w = (handle toy codec helper decimal meets line start).0 in
    (w.host ≡ 7 ∷ []) ⊎ ((handle toy codec helper decimal meets line w).0 ≡ w)
unfolding is_cacheable effective_operation operation_text
at_most_once_example =
    at_most_once toy codec helper small decimal meets meets line line ask ask start refl refl refl
      refl refl refl tt

-- A crash has left the receipt of the attempt.
abbrev crashed : World (List ℕ)
crashed = record { entries = ("h.json", receipt_file "started" 1) ∷ []; host = 1 ∷ 7 ∷ [] }

crashed-IsStarted : IsStarted codec (path codec "a1") (receipt_file "started" 1) crashed.entries
unfolding lookup path
crashed-IsStarted = record { stored = refl; started = refl }

interrupted_stays_away_example :
    let w = handle_all toy codec helper decimal ((meets, line) ∷ (meets, line) ∷ []) crashed in
    IsStarted codec (path codec ask.attempt_id) (receipt_file "started" 1) w.entries
    × ((handle toy codec helper decimal meets line w).0 ≡ w)
unfolding is_cacheable effective_operation operation_text lookup
interrupted_stays_away_example =
    interrupted_stays_away toy codec helper small decimal ((meets, line) ∷ (meets, line) ∷ []) meets
      line ask (receipt_file "started" 1) crashed refl refl refl (refl, tt) crashed-IsStarted
