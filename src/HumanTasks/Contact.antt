-- ===== src/HumanTasks/Contact.antt =====
-- A task that was done is contact like an email (invariant I-7).
use open_reachout.Base.{
  ℕ, ◌-◌, ◌/◌, ◌<◌, ◌≡◌, refl, sym, ap, String, Bool, true, false, Option, none, some, Result, ok,
  arith, ℕ_eq, ==_refl, apply_row, Bool-cases, inl, inr, starts_with,
}
use open_reachout.Db.{Db, Prospect, Entity, HumanTask}
use open_reachout.Control.{human_actor_prefix}
use open_reachout.PgStore.{may_contact, too_recent}
use open_reachout.HumanTasks.{resolve, resolve_row, resolve_task, is_pending, count_contact}

-- The gap of a contact that is just now is no day.
just_now :
    (now min_gap cap : ℕ) (o : Option Entity)
    → 0 < min_gap
    → may_contact now min_gap cap (apply_row (count_contact now) o) ≡ false
just_now now min_gap cap none h = refl
just_now now min_gap cap (some e) h =
    let recent : too_recent now min_gap (some now) ≡ true = ground (arith, zero_days now) in
    ground (arith, recent)
  where
    zero_days : (n : ℕ) → (n - n) / 86400 ≡ 0
    zero_days n = omega arith

resolved_row :
    (i : ℕ) (actor : String) (t : HumanTask) (p : Prospect) (o : Option HumanTask) (db db' : Db)
    (min_gap cap : ℕ)
    → o ≡ some t
    → db.prospects.rows t.prospect_id ≡ some p
    → 0 < min_gap
    → ◌≡◌ {A = Result Bool × Db} (resolve_row i actor true o db) (ok true, db')
    → may_contact db'.now min_gap cap (db'.entities.rows p.entity_id) ≡ false
resolved_row i actor t p none db db' min_gap cap is_t its h e = cc
resolved_row i actor t p (some t') db db' min_gap cap is_t its h e =
    let same : t' ≡ t = ground (arith, is_t) in
    elim (Bool-cases (is_pending t'.status)) [
      | inr f ↦ cc (rw f at e)
      | inl y ↦
          let there : resolve_task i actor true t' db ≡ db' =
            ap (λ (x : Result Bool × Db). x.1) (rw y at e) in
          let its' : db.prospects.rows t'.prospect_id ≡ some p = rw same its in
          rw (sym there) (
            rw (its', ==_refl p.entity_id)
              (just_now db.now min_gap cap (db.entities.rows p.entity_id) h))
    ]

-- When an operator marks a task as done and `resolve` returns True, then in the database that it
-- leaves the frequency gate refuses the entity of the task's prospect, whatever the annual cap is,
-- if the minimal gap is at least one day.
pub resolve-may_contact :
    (i : ℕ) (actor : String) (t : HumanTask) (p : Prospect) (db db' : Db) (min_gap cap : ℕ)
    → db.human_tasks.rows i ≡ some t
    → db.prospects.rows t.prospect_id ≡ some p
    → 0 < min_gap
    → resolve i actor true db ≡ (ok true, db')
    → may_contact db'.now min_gap cap (db'.entities.rows p.entity_id) ≡ false
unfolding resolve
resolve-may_contact i actor t p db db' min_gap cap at its h e =
    elim (Bool-cases (starts_with human_actor_prefix actor)) [
      | inl y ↦
          resolved_row i actor t p (db.human_tasks.rows i) db db' min_gap cap at its h (rw y at e)
      | inr f ↦ cc (rw f at e)
    ]
