-- ===== src/HumanTasks/Expiry.antt =====
-- What `expire` leaves: no task parks a prospect for longer than its age allows.
use open_reachout.Base.{
  ℕ, zero, suc, ◌<◌, ◌≡◌, refl, sym, Bool, false, Option, none, some, arith, ℕ_eq, ◌==◌, ==_iff,
  row_is, apply_row, Bool-cases, inl, inr,
}
use open_reachout.Db.{Db, HumanTask, expired}
use open_reachout.HumanTasks.{stale, close_task, expire_task, expire_row, expire_below, expire}

abbrev is_stale : ℕ → ℕ → Option HumanTask → Bool
is_stale now d o = row_is (stale now d) o

-- The tasks below n have been looked at.
record Swept (d n : ℕ) (db : Db) (x : ℕ × Db) : Type 0 where
  now : x.1.now ≡ db.now
  entities : x.1.entities ≡ db.entities
  clean : (j : ℕ) → j < n → is_stale db.now d (x.1.human_tasks.rows j) ≡ false

closed_row :
    (now d : ℕ) (o : Option HumanTask)
    → is_stale now d (apply_row (close_task expired "system:expiry") o) ≡ false
closed_row now d none = refl
closed_row now d (some t) = refl

expired-clean :
    (d i j : ℕ) (t : HumanTask) (now : ℕ) (db : Db)
    → (j < i → is_stale now d (db.human_tasks.rows j) ≡ false)
    → j < suc i
    → is_stale now d ((expire_task i t db).human_tasks.rows j) ≡ false
expired-clean d i j t now db h lt = elim (Bool-cases (i == j)) [
  | inl e ↦ rw e (closed_row now d (db.human_tasks.rows j))
  | inr f ↦ rw f (h (ground (arith, f, lt)))
]

row-Swept :
    (d i : ℕ) (db s : Db) (n : ℕ) (o : Option HumanTask)
    → s.human_tasks.rows i ≡ o
    → Swept d i db (n, s)
    → Swept d (suc i) db (expire_row d i o (n, s))
row-Swept d i db s n none at h = record {
  now = h.now;
  entities = h.entities;
  clean = λ j lt. elim (Bool-cases (i == j)) [
    | inl e ↦ rw (sym ((==_iff i j).0 e)) (rw at refl)
    | inr f ↦ h.clean j (ground (arith, f, lt))
  ];
}
row-Swept d i db s n (some t) at h = elim (Bool-cases (stale s.now d t)) [
  | inl y ↦ rw y (record {
    now = h.now;
    entities = h.entities;
    clean = λ j lt. expired-clean d i j t db.now s (h.clean j) lt;
  })
  | inr f ↦ rw f (record {
    now = h.now;
    entities = h.entities;
    clean = λ j lt. elim (Bool-cases (i == j)) [
      | inl e ↦ rw (sym ((==_iff i j).0 e)) (rw (at, sym h.now) f)
      | inr g ↦ h.clean j (ground (arith, g, lt))
    ];
  })
]

below-Swept : (d n : ℕ) (db : Db) → Swept d n db (expire_below d n db)
unfolding expire_below
below-Swept d zero db = record { now = refl; entities = refl; clean = λ j lt. absurd (omega arith) }
below-Swept d (suc n) db =
    let x = expire_below d n db in
    row-Swept d n db x.1 x.0 (x.1.human_tasks.rows n) refl (below-Swept d n db)

-- After `expire` no task is pending that was created longer ago than the given days, and no entity's
-- count of touches or time of last contact has changed: an expired task never counts as contact.
pub expire_lem :
    (max_age_days : ℕ) (db : Db)
    → ((j : ℕ)
        → j < db.human_tasks.next
        → row_is (stale db.now max_age_days) ((expire max_age_days db).1.human_tasks.rows j)
          ≡ false)
      × ((expire max_age_days db).1.entities ≡ db.entities)
unfolding expire
expire_lem d db = let s = below-Swept d db.human_tasks.next db in (s.clean, s.entities)
