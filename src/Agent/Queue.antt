-- ===== src/Agent/Queue.antt =====
-- The offline queue of internal/agent/queue.go: one file for each request, sent in the order of
-- their names.
pub mod Delivery
pub mod Capacity
pub mod Names
pub mod Order
use Prim.Native.String.{◌++◌ as cat, compare}
use text.Mathlib.Text.{is_lt}
use witshield.Base.{
  ℕ, ◌+◌, ◌*◌, ◌^◌, String, len, Bool, true, false, not, ◌&&◌, ◌||◌, Option, none, some, List, [],
  ◌∷◌, ◌++◌, length, ltb, leb, ◌==◌, str_eq, if◌then◌else◌,
}
use witshield.Base.Dict.{lookup, insert, delete}
use witshield.Helper.Files.{FileKind, regular, directory, symlink, has_suffix}

abbrev pub max_queued_payload_bytes : ℕ
max_queued_payload_bytes = 4 * 2 ^ 20

pub record QueuedRequest : Type 0 where
  pub id : String
  pub kind : String
  pub command_id : String
  pub body : String
  -- 0 for the zero time
  pub created_at : ℕ

pub record Entry : Type 0 where
  pub kind : FileKind
  pub content : String

abbrev pub Directory : Type 0
Directory = List (String × Entry)

pub record Queue : Type 0 where
  pub max_items : ℕ
  pub max_bytes : ℕ

-- The limits that `NewQueue` sets.
abbrev pub new_queue : Queue
new_queue = record { max_items = 5000; max_bytes = 128 * 2 ^ 20 }

-- encoding/json, time.Format and url.PathEscape.
pub record Codec : Type 0 where
  pub marshal : QueuedRequest → String
  -- the strict decoding of one value
  pub decode : String → Option QueuedRequest
  pub json_valid : String → Bool
  pub format_time : ℕ → String
  pub path_escape : String → String

-- A request to the Controller, and its answer.
pub record Post : Type 0 where
  pub path : String
  pub body : String

pub data Reply : Type 0 where
  accepted : Reply
  api_error : ℕ → String → Reply
  failed : String → Reply

-- How the operating system and the Controller answer. The Controller and the context may depend on
-- what was sent before.
pub record Outside : Type 0 where
  pub read_ok : Bool
  pub store_ok : Bool
  pub rename_ok : Bool
  pub sync_ok : Bool
  pub read_file_ok : String → Bool
  pub remove_ok : String → Bool
  pub cancelled : List Post → Bool
  pub controller : List Post → Post → Reply

-- The queue's directory, and what was sent to the Controller, in order.
pub record World : Type 0 where
  pub entries : Directory
  pub sent : List Post

unfoldable pub is_file : FileKind → Bool
is_file directory = false
is_file symlink = false
is_file _ = true

unfoldable pub is_regular : FileKind → Bool
is_regular regular = true
is_regular _ = false

unfoldable pub is_queue_file : String → Entry → Bool
unfolding is_file has_suffix
is_queue_file name e = is_file e.kind && has_suffix ".json" name

-- sort.Strings
pub insert_name : String → List String → List String
insert_name x [] = x ∷ []
insert_name x (y ∷ ys) =
    let rest = insert_name x ys in if is_lt (compare y x) then y ∷ rest else x ∷ y ∷ ys

pub sort_names : List String → List String
unfolding insert_name
sort_names [] = []
sort_names (x ∷ xs) = insert_name x (sort_names xs)

pub queue_names : Directory → List String
queue_names [] = []
queue_names ((name, e) ∷ rest) =
    let names = queue_names rest in if is_queue_file name e then name ∷ names else names

pub total_bytes : Directory → ℕ
total_bytes [] = 0
total_bytes ((name, e) ∷ rest) =
    let total = total_bytes rest in if is_queue_file name e then len e.content + total else total

-- `files`
unfoldable pub files : Outside → Directory → Option (List String × ℕ)
unfolding queue_names sort_names total_bytes
files o entries =
    if o.read_ok then some (sort_names (queue_names entries), total_bytes entries) else none

is_kind : String → Bool
is_kind kind = str_eq kind "report" || str_eq kind "events" || str_eq kind "command_result"

module _ (c : Codec) where
  unfoldable pub file_name : QueuedRequest → String
  file_name item = cat (c.format_time item.created_at) (cat "_" (cat item.id ".json"))

  -- The write of the new file, under a temporary name that is no queue file, and its renaming.
  store : Outside → QueuedRequest → Directory → Directory × Option String
  unfolding file_name
  store o item entries =
      if not o.store_ok
      then (entries, some "write failed")
      else if not o.rename_ok
      then (entries, some "rename failed")
      else (
        insert (file_name item) (record { kind = regular; content = c.marshal item }) entries,
        if o.sync_ok then none else some "sync failed",
      )

  -- `Enqueue`, with the identifier and the time of the new item; the body is none where it has no JSON.
  unfoldable pub enqueue :
      Queue
      → Outside
      → String
      → ℕ
      → String
      → String
      → Option String
      → Directory
      → Directory × Option String
  unfolding is_kind store files
  enqueue q o id now kind command_id body entries =
      if not (is_kind kind) then (entries, some "unsupported queue kind") else elim body [
        | none ↦ (entries, some "marshal failed")
        | some b ↦
            if ltb max_queued_payload_bytes (len b)
            then (entries, some "queued payload is too large")
            else elim (files o entries) [
              | none ↦ (entries, some "read failed")
              | some (names, total) ↦
                  if leb q.max_items (length names) || ltb q.max_bytes (total + len b)
                  then (entries, some "offline queue capacity reached")
                  else store o
                      (record {
                        id = id;
                        kind = kind;
                        command_id = command_id;
                        body = b;
                        created_at = now;
                      })
                      entries
            ]
      ]

  -- The request that an item is sent as, where it is valid.
  unfoldable pub post_of : QueuedRequest → Option Post
  post_of item =
      if str_eq item.id "" || item.created_at == 0 || not (c.json_valid item.body)
      then none
      else if str_eq item.kind "report"
      then some (record { path = "/agent/v1/reports"; body = item.body })
      else if str_eq item.kind "events"
      then some (record { path = "/agent/v1/events"; body = item.body })
      else if str_eq item.kind "command_result" && not (str_eq item.command_id "")
      then some (record {
        path = cat "/agent/v1/commands/" (cat (c.path_escape item.command_id) "/result");
        body = item.body;
      })
      else none

  -- Whether an answer ends the item.
  unfoldable pub settles : QueuedRequest → Reply → Bool
  settles item accepted = true
  settles item (api_error status code) =
      str_eq item.kind "command_result" && status == 410 && str_eq code "command_result_expired"
  settles item (failed message) = false

  -- The checks of one file: the item and its request, or the error.
  unfoldable pub open_item : Outside → String → Directory → Option (QueuedRequest × Post)
  unfolding is_regular post_of
  open_item o name entries = elim (lookup name entries) [
    | none ↦ none
    | some e ↦
        if not (is_regular e.kind) || not (o.read_file_ok name)
        then none
        else elim (c.decode e.content) [
          | none ↦ none
          | some item ↦ elim (post_of item) [ none ↦ none | some post ↦ some (item, post) ]
        ]
  ]

  -- One item is sent, and removed where the answer ends it.
  send : Outside → String → QueuedRequest → Post → World → World × Option String
  unfolding settles
  send o name item post w =
      let sent = w.sent ++ (post ∷ []) in
      if not (settles item (o.controller w.sent post))
      then (record { entries = w.entries; sent = sent }, some "request failed")
      else if not (o.remove_ok name)
      then (record { entries = w.entries; sent = sent }, some "remove failed")
      else (
        record { entries = delete name w.entries; sent = sent },
        if o.sync_ok then none else some "sync failed",
      )

  -- One round of the loop of `Flush`.
  pub flush_one : Outside → String → World → World × Option String
  unfolding send open_item
  flush_one o name w =
      if o.cancelled w.sent
      then (w, some "context canceled")
      else elim (open_item o name w.entries) [
        | none ↦ (w, some "invalid queue entry")
        | some (item, post) ↦ send o name item post w
      ]

  -- The loop of `Flush`, which ends at the first error.
  pub flush_all : Outside → List String → World → World × Option String
  unfolding flush_one
  flush_all o [] w = (w, none)
  flush_all o (name ∷ rest) w =
      let (w', error) = flush_one o name w in
      let after = flush_all o rest w' in elim error [ some e ↦ (w', some e) | none ↦ after ]

  pub flush : Outside → World → World × Option String
  unfolding flush_all files
  flush o w = elim (files o w.entries) [
    | none ↦ (w, some "read failed")
    | some (names, _) ↦ flush_all o names w
  ]

  -- Opens every part, for a run at a concrete input.
  unfoldable pub queue : Unit {0}
  unfolding enqueue flush post_of is_queue_file
  queue = tt
