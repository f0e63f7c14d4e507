-- ===== src/Control.antt =====
-- Halt and kill-switch flags (src/open_reachout/core/control.py).
pub mod Flags
use open_reachout.Base.{
  ℕ, zero, ◌≡◌, String, Bool, true, false, Option, none, some, List, [], ◌∷◌, ◌++◌, Exec, pure,
  raise, modify, ◌>>=◌, ◌>>◌, resume_requires_human, Eq, string_eq, ◌==◌, if◌then◌else◌, set,
  starts_with,
}
use open_reachout.Db.{Db, Flag, Audit, Key, Payload, QueueName}
use open_reachout.Queue.{enqueue}

abbrev pub global_scope : String
global_scope = "global"

abbrev pub human_actor_prefix : String
human_actor_prefix = "operator:"

abbrev pub set_flag : String → String → String → Db → Db
set_flag scope flag actor db = record db {
  control_flags = set scope (some (record { flag = flag; set_by = actor })) db.control_flags;
}

unfoldable pub halt : String → String → String → Exec Db (Unit {0})
halt scope actor flag = do
  modify (set_flag scope flag actor)
  _ ← enqueue QueueName.control (Payload.pause_all_campaigns scope) (some (Key.halt scope flag)) 0
  pure tt

abbrev pub is_set : Option Flag → Bool
is_set none = false
is_set (some _) = true

abbrev pub clear_flag : String → String → Db → Db
clear_flag scope actor db = record db {
  control_flags = set scope none db.control_flags;
  audit = db.audit ++ Audit.flag_resumed scope actor ∷ [];
}

-- The result is the rowcount of the DELETE as a truth value.
unfoldable pub resume : String → String → Exec Db Bool
resume scope actor db =
    if starts_with human_actor_prefix actor
    then pure (is_set (db.control_flags scope)) (clear_flag scope actor db)
    else raise resume_requires_human db

abbrev scope_row : Db → String → List String
scope_row db scope = if is_set (db.control_flags scope) then scope ∷ [] else []

-- SELECT scope ... WHERE scope IN ('global', :t); a tenant with the slug "global" has the one row.
unfoldable pub halted_scopes : String → Db → List String
halted_scopes tenant db =
    scope_row db global_scope ++ (if tenant == global_scope then [] else scope_row db tenant)
