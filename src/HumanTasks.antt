-- ===== src/HumanTasks.antt =====
-- Steps that a person takes (src/open_reachout/core/human_tasks.py): create_for_step, resolve and
-- expire. The text of the brief, which only cites what is stored, is left out.
pub mod Contact
pub mod Expiry
use open_reachout.Base.{
  ℕ, zero, suc, ◌+◌, ◌-◌, ◌*◌, ◌<◌, ◌≡◌, String, Bool, true, false, ◌&&◌, Option, none, some, List,
  [], ◌∷◌, ◌++◌, Exec, pure, raise, permission_error, ℕ_eq, ◌==◌, if◌then◌else◌, ltb, insert,
  update, row_is, starts_with,
}
use open_reachout.Db.{
  Db, Touch, TouchKind, human_task, TouchStatus, pending_human, sent, released, Prospect, Entity,
  HumanTask, TaskStatus, pending, done, skipped, expired, Audit,
}
use open_reachout.Control.{human_actor_prefix}
use open_reachout.Drafts.{set_status}

abbrev pub expire_days : ℕ
expire_days = 14

abbrev pub audit_task : ℕ → String → String → Db → Db
audit_task i event actor db = record db { audit = db.audit ++ Audit.task_event i event actor ∷ [] }

abbrev pub parked_touch : ℕ → String → ℕ → String → Touch
parked_touch prospect_id campaign_id step_index instruction = record {
  prospect_id = prospect_id;
  campaign_id = campaign_id;
  variant_id = none;
  step_index = step_index;
  kind = human_task;
  status = pending_human;
  subject = some instruction;
  body = none;
  content_hash = "human_task";
  mailbox = none;
  scrubbed = false;
  claimed_at = none;
  sent_at = none;
}

unfoldable pub create_for_step : String → ℕ → String → ℕ → String → Exec Db ℕ
create_for_step tenant prospect_id campaign_id step_index instruction db =
    let touch_id = db.touches.next in
    let task_id = db.human_tasks.next in
    pure task_id (
      audit_task task_id "created" "system:compose" (record db {
        touches = insert (parked_touch prospect_id campaign_id step_index instruction) db.touches;
        human_tasks =
            insert
              (record {
                tenant = tenant;
                prospect_id = prospect_id;
                touch_id = touch_id;
                instruction = instruction;
                status = pending;
                created_at = db.now;
                resolved_by = none;
              })
              db.human_tasks;
      }))

abbrev pub is_pending : TaskStatus → Bool
is_pending pending = true
is_pending _ = false

abbrev pub close_task : TaskStatus → String → HumanTask → HumanTask
close_task s actor t = record t { status = s; resolved_by = some actor }

abbrev pub mark_sent : ℕ → Touch → Touch
mark_sent now t = record t { status = sent; sent_at = some now }

abbrev pub count_contact : ℕ → Entity → Entity
count_contact now e = record e {
  last_campaign_contact_at = some now;
  touches_12mo = e.touches_12mo + 1;
}

-- WHERE id = (SELECT entity_id FROM prospects WHERE id = :p)
abbrev pub count_for : Option Prospect → Db → Db
count_for none db = db
count_for (some p) db = record db {
  entities = update p.entity_id (count_contact db.now) db.entities;
}

-- The touch of a task that was done, or that was not.
abbrev pub settle_touch : Bool → ℕ → ℕ → Db → Db
settle_touch true touch_id prospect_id db =
    count_for (db.prospects.rows prospect_id)
      (record db { touches = update touch_id (mark_sent db.now) db.touches })
settle_touch false touch_id prospect_id db = record db {
  touches = update touch_id (set_status released) db.touches;
}

abbrev pub outcome : Bool → TaskStatus
outcome finished = if finished then done else skipped

abbrev pub resolve_task : ℕ → String → Bool → HumanTask → Db → Db
resolve_task i actor finished t db = audit_task i (if finished then "done" else "skipped") actor (
    settle_touch finished t.touch_id t.prospect_id
      (record db { human_tasks = update i (close_task (outcome finished) actor) db.human_tasks }))

abbrev pub resolve_row : ℕ → String → Bool → Option HumanTask → Exec Db Bool
resolve_row i actor finished none db = pure false db
resolve_row i actor finished (some t) db =
    if is_pending t.status then pure true (resolve_task i actor finished t db) else pure false db

unfoldable pub resolve : ℕ → String → Bool → Exec Db Bool
resolve i actor finished db =
    if starts_with human_actor_prefix actor
    then resolve_row i actor finished (db.human_tasks.rows i) db
    else raise permission_error db

-- status = 'pending' AND created_at < now() - make_interval(days => :d)
abbrev pub stale : ℕ → ℕ → HumanTask → Bool
stale now max_age_days t = is_pending t.status && ltb (t.created_at + max_age_days * 86400) now

abbrev pub expire_task : ℕ → HumanTask → Db → Db
expire_task i t db = audit_task i "expired" "system:expiry" (record db {
  human_tasks = update i (close_task expired "system:expiry") db.human_tasks;
  touches = update t.touch_id (set_status released) db.touches;
})

abbrev pub expire_row : ℕ → ℕ → Option HumanTask → ℕ × Db → ℕ × Db
expire_row max_age_days i none (n, db) = (n, db)
expire_row max_age_days i (some t) (n, db) =
    if stale db.now max_age_days t then (suc n, expire_task i t db) else (n, db)

-- The rows that the UPDATE returns, in the order of their ids: those below n. The UPDATE of the tasks
-- and the loop over them are one pass here, as neither reads what the other writes.
unfoldable pub expire_below : ℕ → ℕ → Db → ℕ × Db
expire_below max_age_days zero db = (0, db)
expire_below max_age_days (suc i) db =
    let done_below = expire_below max_age_days i db in
    expire_row max_age_days i (done_below.1.human_tasks.rows i) done_below

unfoldable pub expire : ℕ → Db → ℕ × Db
unfolding expire_below
expire max_age_days db = expire_below max_age_days db.human_tasks.next db
