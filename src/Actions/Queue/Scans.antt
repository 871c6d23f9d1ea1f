-- ===== src/Actions/Queue/Scans.antt =====
-- A device has at most one scan to do (`EnqueueCommand` of internal/store/reports_commands.go).
use witshield.Base.{
  ℕ, String, Bool, true, false, ◌≡◌, refl, ap, ◌∙◌, List, [], ◌∷◌, ◌++◌, len, ◌==◌, eq_iff,
  if◌then◌else◌, arith,
}
use witshield.Actions.Tables.{CommandRow, DeviceCommand, Tables}
use witshield.Actions.Statement.{
  Outcome, done, fault, pure, ◌>>=◌, count_where, update_where, queued, insert_command,
  update_commands, constrained,
}
use witshield.Events.Counts.{count-append}
use witshield.Actions.Queue.{
  is_scan, is_pending_scan, is_superseded, superseded, supersede_pending_scan_commands, mapped,
  insert_or_replace, enqueue_command,
}

count-supersede :
    (device_id : String) (now : ℕ) (rows : List CommandRow)
    → count_where
        (is_pending_scan device_id)
        (update_where (is_superseded device_id "") (superseded now) rows)
      ≡ 0
unfolding count_where update_where is_pending_scan is_superseded superseded
count-supersede device_id now [] = refl
count-supersede device_id now (c ∷ rows) = ground (arith, count-supersede device_id now rows)

mapped-inv : {A : Type 0} (o : Outcome A) (a : A) (t : Tables) → mapped o ≡ done a t → o ≡ done a t
mapped-inv (done b u) a t h = h
mapped-inv (fault e) a t h = cc

queued-pending :
    (c : DeviceCommand) → is_scan c.type ≡ true → is_pending_scan c.device_id (queued c) ≡ true
unfolding is_pending_scan queued
queued-pending c h = ground (arith, eq_iff c.device_id c.device_id)

replaced :
    (c : DeviceCommand) (s t : Tables)
    → is_scan c.type ≡ true
    → insert_or_replace c s ≡ done tt t
    → t.commands
      ≡ update_where (is_superseded c.device_id "") (superseded c.created_at) s.commands
        ++ queued c ∷ []
unfolding insert_or_replace supersede_pending_scan_commands ◌>>=◌ update_commands pure
    insert_command constrained
replaced c s t h e = ground arith

one_of :
    (c : DeviceCommand) (s t : Tables)
    → is_scan c.type ≡ true
    → insert_or_replace c s ≡ done tt t
    → count_where (is_pending_scan c.device_id) t.commands ≡ 1
one_of c s t h e =
    let rows = update_where (is_superseded c.device_id "") (superseded c.created_at) s.commands in
    ap (count_where (is_pending_scan c.device_id)) (replaced c s t h e)
    ∙ count-append (is_pending_scan c.device_id) rows (queued c)
    ∙ ground (arith, queued-pending c h, count-supersede c.device_id c.created_at s.commands)

-- Once a scan is enqueued, it is the only scan that the device has still to do.
pub one_scan :
    (c : DeviceCommand) (fresh : String) (s t : Tables)
    → is_scan c.type ≡ true
    → enqueue_command c fresh s ≡ done tt t
    → count_where (is_pending_scan c.device_id) t.commands ≡ 1
unfolding enqueue_command
one_scan c fresh s t h e = row (len c.id == 0) e
  where
    row :
        (b : Bool)
        → mapped (insert_or_replace (if b then record c { id = fresh } else c) s) ≡ done tt t
        → count_where (is_pending_scan c.device_id) t.commands ≡ 1
    row true e = one_of (record c { id = fresh }) s t h (mapped-inv _ tt t e)
    row false e = one_of c s t h (mapped-inv _ tt t e)
