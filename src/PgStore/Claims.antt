-- ===== src/PgStore/Claims.antt =====
-- What an issued claim says of the database: the invariants I-1, I-2, I-3, I-7, I-8 and I-9 at once.
use open_reachout.Base.{
  ℕ, ◌≡◌, refl, sym, ◌∙◌, ap, String, Bool, true, false, Option, none, some, [], ◌∷◌, ◌++◌, arith,
  ok, Result, Bool-cases, inl, inr, Table,
}
use mathlib.Core.Path.{subst}
use open_reachout.Db.{Db, Prospect, Touch, ClaimedTouch, drafted}
use open_reachout.Canonical.{Python}
use open_reachout.Control
use open_reachout.Control.{global_scope}
use open_reachout.Suppression.{is_suppressed}
use open_reachout.Gatekeeper.{
  DraftTouch, Checks, GateStore, GateProfile, cold, reply, followup, issued, claim, is_volume,
  Results,
}
use open_reachout.Gatekeeper.Passed.{Passed, passes_of, FrequencyPasses, BudgetPasses}
use open_reachout.Gatekeeper.Order.{claim-issued_iff}
use open_reachout.PgStore.{
  pg_store, consume, pick, sendable, is_drafted, blocked, address_of, claim_row, write_claim,
  persist_claim,
}
use open_reachout.PgStore.Reads.{halted_scopes-nil, is_suppressed_false}
use open_reachout.PgStore.Budget.{is_suppressed-same}
use open_reachout.PgStore.Refunds.{consume-result}
use open_reachout.PgStore.Sendable.{
  MayContact, HasBudget, charge, IsSendable, SameTables-trans, charge-SameTables, pick-SameTables,
  sendable-same, blocked-same,
}

claim_row_ok :
    {C : Type 0} (t : DraftTouch C) (m : String) (rs : Results) (o : Option Touch) (db s : Db)
    → ◌≡◌ {A = Result Unit × Db} (claim_row t m rs o db) (ok tt, s)
    → (row : Touch) × (o ≡ some row)
      × (row.status ≡ drafted)
      × (blocked db (address_of (db.prospects.rows row.prospect_id)) ≡ false)
      × (s ≡ write_claim t m rs db)
claim_row_ok t m rs none db s h = cc
claim_row_ok t m rs (some row) db s h = elim (Bool-cases (is_drafted row.status)) [
  | inr f ↦ cc (rw f at h)
  | inl d ↦ elim (Bool-cases (blocked db (address_of (db.prospects.rows row.prospect_id)))) [
    | inl b ↦ cc (rw (d, b) at h)
    | inr b ↦
        (row, refl, ground (arith, d), b, sym (ap (λ (q : Result Unit × Db). q.1) (rw (d, b) at h)))
  ]
]

parts :
    {A : Type 0} (a b : A) (s u : Db)
    → ◌≡◌ {A = Result A × Db} (ok a, s) (ok b, u)
    → (a ≡ b) × (s ≡ u)
parts {A} a b s u e = (cc e, ap (λ (q : Result A × Db). q.1) e)

module _ {C : Type 0} (py : Python) (min_gap annual_cap : ℕ) (checks : Checks C)
    (t : DraftTouch C) where
  store : GateStore Db C
  store = pg_store py min_gap annual_cap

  frequency_read :
      (p : GateProfile) (s s' : Db)
      → FrequencyPasses store checks t p s s'
      → MayContact min_gap annual_cap t p s × (s ≡ s')
  unfolding store pg_store
  frequency_read cold s s' e = parts _ true s s' e
  frequency_read followup s s' e = parts _ true s s' e
  frequency_read reply s s' e = (tt, e)

  budget_read :
      (v : Bool) (s s' : Db)
      → BudgetPasses store checks t v s s'
      → HasBudget t v s × (charge t v s ≡ s')
  unfolding store pg_store
  budget_read true s s' e =
      let (yes', there) = parts _ true (consume t.tenant t.cohort_id s).1 s' e in
      (sym (consume-result t.tenant t.cohort_id s) ∙ yes', there)
  budget_read false s s' e = (tt, e)

  suppression_read :
      (s s' : Db)
      → store.is_suppressed t.email_canonical t.tenant s ≡ (ok false, s')
      → (is_suppressed py t.email_canonical t.tenant s ≡ (ok false, s')) × (s ≡ s')
  unfolding store pg_store
  suppression_read s s' e = (
    e,
    sym (is_suppressed-same py t.email_canonical t.tenant s) ∙ ap (λ (q : Result Bool × Db). q.1) e,
  )

  halt_read :
      (s s' : Db)
      → store.halted_scopes t.tenant s ≡ (ok [], s')
      → (Control.halted_scopes t.tenant s ≡ []) × (s ≡ s')
  unfolding store pg_store
  halt_read s s' e = parts _ [] s s' e

  mailbox_read :
      (m : String) (s s' : Db)
      → store.pick_mailbox t.tenant s ≡ (ok (some m), s')
      → ((pick t.tenant s).0 ≡ some m) × ((pick t.tenant s).1 ≡ s')
  unfolding store pg_store
  mailbox_read m s s' e = parts _ (some m) _ s' e

  confidence_read :
      (s s' : Db)
      → store.confidence_sendable t.email_canonical t.tenant s ≡ (ok true, s')
      → (sendable t.email_canonical t.tenant s ≡ true) × (s ≡ s')
  unfolding store pg_store
  confidence_read s s' e = parts _ true s s' e

  persist_read :
      (m : String) (rs : Results) (s s' : Db)
      → store.persist_claim t m rs s ≡ (ok tt, s')
      → (row : Touch) × (s.touches.rows t.touch_id ≡ some row)
        × (row.status ≡ drafted)
        × (blocked s (address_of (s.prospects.rows row.prospect_id)) ≡ false)
        × (s' ≡ write_claim t m rs s)
  unfolding store pg_store persist_claim
  persist_read m rs s s' e = claim_row_ok t m rs (s.touches.rows t.touch_id) s s' e

  Passed-IsSendable :
      (db db' : Db) (c : ClaimedTouch)
      → Passed store checks t db c db'
      → IsSendable py min_gap annual_cap checks t db c db'
  Passed-IsSendable db db' c p =
      let v = is_volume t.profile in
      let (hn, e1) = halt_read db p.s1 p.not_halted in
      let (no_global, no_tenant) = halted_scopes-nil t.tenant db hn in
      let (hs, e2) = suppression_read db p.s2 (
        subst (λ s. store.is_suppressed t.email_canonical t.tenant s ≡ (ok false, p.s2)) (sym e1)
          p.not_suppressed) in
      let (h, hashed, clear, unforgotten) =
        is_suppressed_false py t.email_canonical t.tenant db p.s2 hs in
      let (hf, e3) = frequency_read t.profile db p.s3 (
        subst (λ s. FrequencyPasses store checks t t.profile s p.s3) (sym e2) p.frequency_passes) in
      let (hb, e4) =
        budget_read v db p.s4
          (subst (λ s. BudgetPasses store checks t v s p.s4) (sym e3) p.budget_passes) in
      let (hm, e5) = mailbox_read p.mailbox (charge t v db) p.s5 (
        subst (λ s. store.pick_mailbox t.tenant s ≡ (ok (some p.mailbox), p.s5)) (sym e4)
          p.has_mailbox) in
      let last = (pick t.tenant (charge t v db)).1 in
      let (hc, e6) = confidence_read last p.s6 (
        subst (λ s. store.confidence_sendable t.email_canonical t.tenant s ≡ (ok true, p.s6))
          (sym e5) p.is_confident) in
      let rs =
        (passes_of store checks t.profile ++ ("mailbox", p.mailbox) ∷ [])
        ++ ("confidence", "pass") ∷ [] in
      let (row, at, d, nb, w) =
        persist_read p.mailbox rs last db'
          (subst (λ s. store.persist_claim t p.mailbox rs s ≡ (ok tt, db')) (sym e6) p.persisted) in
      let same =
        SameTables-trans (charge-SameTables t v db) (pick-SameTables t.tenant (charge t v db)) in
      let mailbox_is = ap (λ (x : ClaimedTouch). x.mailbox) p.proof in
      record {
        not_halted = no_global;
        tenant_not_halted = no_tenant;
        hash_bound = p.hash_bound;
        no_findings = p.no_findings;
        grounded = p.grounded;
        not_suppressed = clear;
        hash = h;
        hashed = hashed;
        not_forgotten = unforgotten;
        may_contact_entity = hf;
        has_budget = hb;
        verified = sym (sendable-same t.email_canonical t.tenant db last same) ∙ hc;
        touch = row;
        at = sym (ap (λ (x : Table Touch). x.rows t.touch_id) same.touches) ∙ at;
        was_drafted = d;
        not_blocked =
            ap (λ (x : Table Prospect). blocked db (address_of (x.rows row.prospect_id)))
              (sym same.prospects)
            ∙ (sym (blocked-same (address_of (last.prospects.rows row.prospect_id)) db last same)
                ∙ nb);
        results = rs;
        picked = rw mailbox_is hm;
        names_touch = ap (λ (x : ClaimedTouch). x.touch_id) p.proof;
        names_hash = ap (λ (x : ClaimedTouch). x.content_sha256) p.proof;
        names_recipient = ap (λ (x : ClaimedTouch). x.recipient) p.proof;
        written = rw mailbox_is w;
      }

  -- A claim over the database issues a ClaimedTouch only if, in the database that it was called on,
  -- neither the global scope nor the tenant is halted, the stored hash is the draft's and the validators
  -- and the groundedness audit passed, the address is neither suppressed (globally, for the tenant, or
  -- by the trigger in any scope) nor forgotten, but for a REPLY the entity's frequency allows it and
  -- both monthly budgets have room, the address is verified and the touch is still drafted; and then
  -- all that it writes is what consuming the budget and picking the mailbox write, and the rows of
  -- `persist_claim`.
  pub claim-IsSendable :
      (db db' : Db) (c : ClaimedTouch)
      → claim (pg_store py min_gap annual_cap) checks t db ≡ (ok (issued c), db')
      → IsSendable py min_gap annual_cap checks t db c db'
  unfolding store
  claim-IsSendable db db' c e =
      Passed-IsSendable db db' c ((claim-issued_iff store checks t c db' db).0 e)
