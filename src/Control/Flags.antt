-- ===== src/Control/Flags.antt =====
-- Halts bind every claim until a human clears them (invariant I-2).
use open_reachout.Base.{
  ℕ, ◌≡◌, ◌≢◌, ◌⊎◌, refl, String, true, false, Option, none, some, List, [], ◌∷◌, ok, arith,
  string_eq, ==_iff, ==_refl, starts_with, Bool-cases, inl, inr,
}
use open_reachout.Db.{Db, Flag, Key, Payload, QueueName}
use open_reachout.Queue.{enqueue, taken}
use open_reachout.Control.{halt, resume, halted_scopes, global_scope, human_actor_prefix, set_flag}
use open_reachout.Canonical.{Python}
use open_reachout.Gatekeeper.{DraftTouch, Checks, refused, Refusal, halted, gate, claim, gates}
use open_reachout.PgStore.{pg_store}

enqueue-flags :
    (q : QueueName) (p : Payload) (k : Option Key) (d : ℕ) (db : Db)
    → (enqueue q p k d db).1.control_flags ≡ db.control_flags
unfolding enqueue
enqueue-flags q p k d db = elim (Bool-cases (taken db k)) [ inl t ↦ rw t | inr f ↦ rw f ]

halt-flags :
    (scope actor flag : String) (db : Db)
    → (halt scope actor flag db).1.control_flags scope
      ≡ some (record { flag = flag; set_by = actor })
unfolding halt enqueue
halt-flags scope actor flag db =
    elim (Bool-cases (taken (set_flag scope flag actor db) (some (Key.halt scope flag)))) [
      | inl t ↦ rw (t, ==_refl scope)
      | inr f ↦ rw (f, ==_refl scope)
    ]

-- A flag on the scope, global or the tenant's, is in what the first gate reads.
halted_by :
    (scope tenant : String) (f : Flag) (db : Db)
    → (scope ≡ global_scope) ⊎ (scope ≡ tenant)
    → db.control_flags scope ≡ some f
    → halted_scopes tenant db ≢ []
unfolding halted_scopes
halted_by scope tenant f db (inl e) at = λ h. ground (arith, ==_iff tenant global_scope)
halted_by scope tenant f db (inr e) at = λ h. ground (arith, ==_iff tenant global_scope)

abbrev pub halt_refusal : Refusal
halt_refusal = record { reason = halted; detail = gate "halt"; terminal = false }

module _ {C : Type 0} (py : Python) (min_gap annual_cap : ℕ) (checks : Checks C)
    (t : DraftTouch C) where
  refused_when :
      (scopes : List String) (db : Db)
      → halted_scopes t.tenant db ≡ scopes
      → scopes ≢ []
      → claim (pg_store py min_gap annual_cap) checks t db ≡ (ok (refused halt_refusal), db)
  unfolding claim gates pg_store
  refused_when [] db e n = absurd (n refl)
  refused_when (x ∷ xs) db e n = rw e

  -- In the database that `halt` leaves, called by any actor and with any flag, on the global scope or on
  -- a tenant, every claim of that tenant is refused as HALTED, not terminally, and writes nothing.
  pub halt-claim :
      (scope actor flag : String) (db : Db)
      → (scope ≡ global_scope) ⊎ (scope ≡ t.tenant)
      → let db' = (halt scope actor flag db).1 in
        claim (pg_store py min_gap annual_cap) checks t db' ≡ (ok (refused halt_refusal), db')
  halt-claim scope actor flag db which = refused_when _ (halt scope actor flag db).1 refl (
      halted_by scope t.tenant _ (halt scope actor flag db).1 which
        (halt-flags scope actor flag db))

-- A flag that is gone after a `resume` was that call's own scope, and its actor an operator.
resume-clears :
    (scope actor other : String) (f : Flag) (db : Db)
    → db.control_flags other ≡ some f
    → (resume scope actor db).1.control_flags other ≡ none
    → (starts_with human_actor_prefix actor ≡ true) × (scope ≡ other)
unfolding resume
resume-clears scope actor other f db at gone = ground (arith, ==_iff scope other)
