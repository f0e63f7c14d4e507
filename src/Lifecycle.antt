-- ===== src/Lifecycle.antt =====
-- The only writer of a prospect's state (src/open_reachout/core/lifecycle.py).
pub mod Writes
use open_reachout.Base.{
  ℕ, ◌≡◌, String, Bool, true, false, Option, none, some, List, [], ◌∷◌, ◌++◌, Exec, pure, raise,
  modify, ◌>>=◌, ◌>>◌, lookup_error, ℕ_eq, ◌==◌, if◌then◌else◌, update,
}
use open_reachout.States.{ProspectState, assert_transition}
use open_reachout.Db.{Db, Prospect, Audit}

abbrev pub set_state : ProspectState → Prospect → Prospect
set_state target p = record p { state = target }

abbrev pub write_state : ℕ → ProspectState → ProspectState → String → Db → Db
write_state prospect_id current target actor db = record db {
  prospects = update prospect_id (set_state target) db.prospects;
  audit = db.audit ++ Audit.prospect_moved prospect_id current target actor ∷ [];
}

abbrev pub transition_from : ℕ → ProspectState → String → Option Prospect → Exec Db (Unit {0})
transition_from prospect_id target actor none = raise lookup_error
transition_from prospect_id target actor (some p) = do
  assert_transition p.state target
  modify (write_state prospect_id p.state target actor)

unfoldable pub transition : ℕ → ProspectState → String → Exec Db (Unit {0})
unfolding assert_transition
transition prospect_id target actor db =
    transition_from prospect_id target actor (db.prospects.rows prospect_id) db
