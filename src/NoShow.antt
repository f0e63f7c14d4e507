-- ===== src/NoShow.antt =====
-- Missed bookings (`process_no_show` of src/open_reachout/core/noshow.py). The composing of the
-- re-engagement and the look-up of the prospects of an operator's event are not modelled.
pub mod Once
use open_reachout.Base.{
  ℕ, zero, suc, ◌+◌, ◌*◌, ◌≡◌, String, Bool, true, false, ◌||◌, Option, none, some, List, [], ◌∷◌,
  ◌++◌, Exec, Result, ok, err, Error, transition_error, pure, modify, ◌>>=◌, ◌>>◌, ℕ_eq, string_eq,
  ◌==◌, if◌then◌else◌,
}
use open_reachout.States.{ProspectState, declined}
use open_reachout.Db.{Db, Prospect, Audit, QueueName, Payload, Key}
use open_reachout.Queue.{enqueue}
use open_reachout.Control.{global_scope}
use open_reachout.Suppression.{put_suppression}
use open_reachout.Lifecycle.{transition}

pub data NoShowOutcome : Type 0 where
  reengage_scheduled closed : NoShowOutcome

abbrev pub is_no_show : ℕ → Audit → Bool
is_no_show p (Audit.no_show q) = q == p
is_no_show p _ = false

-- SELECT count(*) ... , as far as it is read: is there one?
unfoldable pub has_no_show : ℕ → List Audit → Bool
has_no_show p [] = false
has_no_show p (a ∷ rest) = is_no_show p a || has_no_show p rest

-- now() + interval '6 months': `months` is the calendar's.
module _ (months : ℕ → ℕ → ℕ) where
  abbrev pub cool_down : Option String → Db → Db
  cool_down none db = db
  cool_down (some email) db =
      if email == ""
      then db
      else put_suppression
          (record {
            email_canonical = email;
            scope = global_scope;
            reason = "no_show";
            expires_at = some (months db.now 6);
          })
          db

  abbrev pub email_of : Option Prospect → Option String
  email_of none = none
  email_of (some p) = p.email_canonical

  -- `except TransitionError: pass`
  abbrev pub tolerate : Result (Unit {0}) × Db → Result NoShowOutcome × Db
  tolerate (ok _, db) = (ok closed, db)
  tolerate (err transition_error, db) = (ok closed, db)
  tolerate (err e, db) = (err e, db)

  abbrev pub close_prospect : ℕ → Exec Db NoShowOutcome
  close_prospect p db =
      tolerate
        (transition p declined "system:noshow" (cool_down (email_of (db.prospects.rows p)) db))

  abbrev pub schedule_reengage : ℕ → ℕ → Exec Db NoShowOutcome
  schedule_reengage p delay_days = do
    _ ← enqueue QueueName.reengage (Payload.prospect p) (some (Key.reengage p)) (delay_days * 86400)
    pure reengage_scheduled

  abbrev pub note_no_show : ℕ → Db → Db
  note_no_show p db = record db { audit = db.audit ++ Audit.no_show p ∷ [] }

  unfoldable pub process_no_show : ℕ → ℕ → Exec Db NoShowOutcome
  unfolding has_no_show
  process_no_show p delay_days db =
      (if has_no_show p db.audit then close_prospect p else schedule_reengage p delay_days)
        (note_no_show p db)
