-- ===== src/Proposals/Memory.antt =====
-- Declined directions are remembered.
use open_reachout.Base.{
  ℕ, ◌+◌, ◌*◌, ◌<◌, ◌≡◌, ◌∙◌, String, Bool, true, false, none, some, ok, arith, Result, row_is,
  is_empty, first, first-none, starts_with, Bool-cases, Option-cases, inl, inr, string_eq, ==_refl,
}
use open_reachout.Db.{Db, Proposal, ProposalPayload, declined}
use open_reachout.Control.{human_actor_prefix}
use open_reachout.Proposals.{
  decline, propose, suppressed, blocks, resolved, is_waiting, decline_memory_days,
}

declined_row :
    (i : ℕ) (actor : String) (p : Proposal) (db db' : Db)
    → db.proposals.rows i ≡ some p
    → ◌≡◌ {A = Result Bool × Db} (decline i actor db) (ok true, db')
    → db'.proposals.rows i ≡ some (resolved db.now actor declined p)
unfolding decline
declined_row i actor p db db' at e = elim (Bool-cases (starts_with human_actor_prefix actor)) [
  | inr n ↦ cc (rw n at e)
  | inl y ↦ elim (Bool-cases (row_is is_waiting (db.proposals.rows i))) [
    | inr m ↦ cc (rw (y, m) at e)
    | inl w ↦ ground (arith, rw (y, w) at e, at)
  ]
]

declined_blocks :
    (k : String) (p : Proposal) (t0 now : ℕ) (actor : String)
    → p.dedupe_key ≡ some k
    → now < t0 + decline_memory_days * 86400
    → blocks now p.tenant k (resolved t0 actor declined p) ≡ true
declined_blocks k p t0 now actor key soon = rw key (ground (arith, ==_refl k, ==_refl p.tenant))

blocked_suppressed :
    (tenant k : String) (i : ℕ) (q : Proposal) (db : Db)
    → is_empty k ≡ false
    → db.proposals.rows i ≡ some q
    → i < db.proposals.next
    → blocks db.now tenant k q ≡ true
    → suppressed tenant (some k) db ≡ true
unfolding suppressed
blocked_suppressed tenant k i q db full at below hit =
    let test = λ (j : ℕ). row_is (blocks db.now tenant k) (db.proposals.rows j) in
    let passes : row_is (blocks db.now tenant k) (db.proposals.rows i) ≡ true = rw at hit in
    elim (Option-cases (first test db.proposals.next)) [
      | inl none' ↦ cc (passes, first-none test db.proposals.next none' i below)
      | inr found ↦ rw (full, found.1)
    ]

-- When a person has declined a proposal with a dedupe key, then within 90 days, in every database that
-- still has the declined row, proposing under the same tenant and key records nothing, whatever the
-- kind, the summary and the payload are.
pub decline-propose :
    (i : ℕ) (actor k kind summary : String) (payload : ProposalPayload) (p : Proposal)
    (db db' later : Db)
    → db.proposals.rows i ≡ some p
    → p.dedupe_key ≡ some k
    → is_empty k ≡ false
    → decline i actor db ≡ (ok true, db')
    → later.proposals.rows i ≡ db'.proposals.rows i
    → i < later.proposals.next
    → later.now < db.now + decline_memory_days * 86400
    → propose p.tenant kind summary payload (some k) later ≡ (ok none, later)
unfolding propose
decline-propose i actor k kind summary payload p db db' later at key full e kept below soon = rw (
    blocked_suppressed p.tenant k i (resolved db.now actor declined p) later full
      (kept ∙ declined_row i actor p db db' at e) below
      (declined_blocks k p db.now later.now actor key soon))
