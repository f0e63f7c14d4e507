-- ===== src/Escalations.antt =====
-- The escalation queue (src/open_reachout/core/escalations.py): escalate and resolve. `list_open` only
-- reads.
use open_reachout.Base.{
  ℕ, String, Bool, true, false, Option, none, some, [], ◌∷◌, ◌++◌, Exec, pure, raise,
  permission_error, ℕ_eq, if◌then◌else◌, insert, update, row_is, starts_with,
}
use open_reachout.Db.{Db, Escalation, Subject, Audit}
use open_reachout.Control.{human_actor_prefix}

unfoldable pub escalate : Option String → Subject → String → Exec Db ℕ
escalate tenant subject reason db = pure db.escalations.next (record db {
  escalations =
      insert
        (record {
          tenant = tenant;
          subject = subject;
          reason = reason;
          is_open = true;
          resolved_by = none;
        })
        db.escalations;
})

abbrev pub close_escalation : String → Escalation → Escalation
close_escalation actor e = record e { is_open = false; resolved_by = some actor }

abbrev pub open_row : Db → ℕ → Bool
open_row db i = row_is (λ (e : Escalation). e.is_open) (db.escalations.rows i)

unfoldable pub resolve : ℕ → String → Exec Db Bool
resolve i actor db =
    if starts_with human_actor_prefix actor
    then (if open_row db i
        then pure true (record db {
          escalations = update i (close_escalation actor) db.escalations;
          audit = db.audit ++ Audit.escalation_resolved i actor ∷ [];
        })
        else pure false db)
    else raise permission_error db
