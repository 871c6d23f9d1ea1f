-- ===== src/Agent/Examples.antt =====
-- Runs of the agent at concrete inputs.
use witshield.Base.{
  ℕ, String, ◌≡◌, ◌≢◌, refl, true, false, none, some, List, [], ◌∷◌, ◌++◌, str_eq, if◌then◌else◌,
  arith, eq_iff,
}
use witshield.Base.Dict.{lookup, insert, delete, Distinct}
use witshield.Helper.Files.{regular, has_suffix}
use witshield.Agent.Queue.{
  QueuedRequest, Entry, Codec, Post, Outside, World, Reply, accepted, api_error, failed, new_queue,
  queue_names, sort_names, open_item, file_name, enqueue, flush, queue, is_queue_file,
}
use witshield.Agent.Queue.Delivery.{Fate, flush_loses_nothing}
use witshield.Agent.Queue.Order.{posts_of, flush_in_order}
use witshield.Agent.Queue.Capacity.{enqueue_readable}

abbrev report : String → QueuedRequest
report body = record { id = "q1"; kind = "report"; command_id = ""; body = body; created_at = 1 }

abbrev result : QueuedRequest
result = record {
  id = "q2";
  kind = "command_result";
  command_id = "c1";
  body = "old";
  created_at = 1;
}

-- An item is written as its body; the body `old` is the result of a command.
abbrev codec : Codec
codec = record {
  marshal = λ item. item.body;
  decode = λ content. if str_eq content "old" then some result else some (report content);
  json_valid = λ _. true;
  format_time = λ _. "t";
  path_escape = λ s. s;
}

-- The Controller has forgotten the command, and accepts what else it gets, up to a second report.
abbrev answer : List Post → Post → Reply
answer sent post =
    if str_eq post.body "old"
    then api_error 410 "command_result_expired"
    else if str_eq post.body "two"
    then failed "timeout"
    else accepted

abbrev outside : (List Post → Post → Reply) → Outside
outside controller = record {
  read_ok = true;
  store_ok = true;
  rename_ok = true;
  sync_ok = true;
  read_file_ok = λ _. true;
  remove_ok = λ _. true;
  cancelled = λ _. false;
  controller = controller;
}

abbrev file : String → Entry
file content = record { kind = regular; content = content }

abbrev backlog : World
backlog = record {
  entries = ("3.json", file "two") ∷ ("1.json", file "old") ∷ ("2.json", file "one") ∷ [];
  sent = [];
}

queue_opened : Unit {0}
unfolding queue lookup insert delete has_suffix
queue_opened = tt

-- The expired result does not hold up the report after it; the second report fails and stays.
flush_run :
    let (w, error) = flush codec (outside answer) backlog in
    (w.entries ≡ ("3.json", file "two") ∷ [])
    × (w.sent
        ≡ record { path = "/agent/v1/commands/c1/result"; body = "old" }
          ∷ record { path = "/agent/v1/reports"; body = "one" }
          ∷ record { path = "/agent/v1/reports"; body = "two" }
          ∷ [])
    × (error ≡ some "request failed")
unfolding queue_opened
flush_run = (refl, refl, refl)

flush_loses_nothing_example :
    Fate codec (outside answer) "1.json" (file "old") (flush codec (outside answer) backlog).0
unfolding lookup
flush_loses_nothing_example =
    flush_loses_nothing codec (outside answer) "1.json" (file "old") backlog refl

backlog-Distinct : Distinct backlog.entries
unfolding lookup
backlog-Distinct = (refl, (refl, (refl, tt)))

flush_in_order_example :
    let o = outside (λ _ _. accepted) in
    ((flush codec o backlog).0.sent
      ≡ [] ++ posts_of codec o (sort_names (queue_names backlog.entries)) backlog.entries)
    × ((name : String) (e : Entry)
        → lookup name backlog.entries ≡ some e
        → is_queue_file name e ≡ true
        → lookup name (flush codec o backlog).0.entries ≡ none)
unfolding queue_opened
flush_in_order_example =
    flush_in_order codec (outside (λ _ _. accepted)) backlog backlog-Distinct refl

abbrev SameText : String → String → Type 0
SameText s t = s ≡ t

abbrev DistinctText : String → String → Type 0
DistinctText s t = s ≢ t

abbrev DistinctNumber : ℕ → ℕ → Type 0
DistinctNumber m n = m ≢ n

enqueue_readable_example :
    (post : Post) × (open_item codec
        (outside answer)
        (file_name codec (report "new"))
        (enqueue codec new_queue (outside answer) "q1" 1 "report" "" (some "new") backlog.entries).0
      ≡ some (report "new", post))
    × (post.body ≡ "new")
unfolding queue_opened
enqueue_readable_example =
    enqueue_readable codec new_queue (outside answer) "q1" 1 "report" "" "new" backlog.entries refl
      refl refl named dated refl commanded
  where
    named : DistinctText "q1" ""
    named e = ground (arith, eq_iff "q1" "")

    dated : DistinctNumber 1 0
    dated e = omega arith

    commanded : SameText "report" "command_result" → DistinctText "" ""
    commanded e = absurd (ground (arith, eq_iff "report" "command_result"))
