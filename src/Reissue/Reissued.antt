-- ===== src/Reissue/Reissued.antt =====
-- What `reissue` gives back for a touch that was claimed before.
use open_reachout.Base.{
  ℕ, ◌≡◌, refl, sym, ◌∙◌, ap, String, Bool, true, false, Option, none, some, List, [], ◌∷◌, Result,
  ok, err, after_returns, arith,
}
use mathlib.Core.Path.{subst}
use open_reachout.Db.{Db, Touch, claimed, Prospect, ClaimedTouch}
use open_reachout.Control
use open_reachout.Control.{global_scope}
use open_reachout.Canonical.{Python, tombstone_hash}
use open_reachout.Suppression.{is_suppressed, any_row, binds}
use open_reachout.Gatekeeper.{Verdict, issued}
use open_reachout.PgStore.Reads.{halted_scopes-nil, is_suppressed_false}
use open_reachout.PgStore.Budget.{is_suppressed-same}
use open_reachout.Deliver.{is_claimed}
use open_reachout.Reissue.{
  ClaimedSnapshot, proof_of, reissue, reissue_loaded, unless_hit, load_address, load_open,
  load_joined, load_mailbox, load_touch, load_claimed, pg_dispatch,
}

-- What a reissued proof says of the database.
pub record IsReissuable (py : Python) (i : ℕ) (db : Db) (c : ClaimedTouch) : Type 0 where
  pub touch : Touch
  pub prospect : Prospect
  pub at : db.touches.rows i ≡ some touch
  pub was_claimed : touch.status ≡ claimed
  pub has_mailbox : touch.mailbox ≡ some c.mailbox
  pub names_hash : c.content_sha256 ≡ touch.content_hash
  pub its_prospect : db.prospects.rows touch.prospect_id ≡ some prospect
  pub names_tenant : c.tenant ≡ prospect.tenant
  pub names_recipient : prospect.email_canonical ≡ some c.recipient
  pub not_halted : db.control_flags global_scope ≡ none
  pub tenant_not_halted : db.control_flags prospect.tenant ≡ none
  pub not_suppressed : any_row (binds db.now c.recipient prospect.tenant) db.suppressions ≡ false
  pub names_touch : c.touch_id ≡ i
  pub hash : String
  pub hashed : tombstone_hash py c.recipient ≡ some hash
  pub not_forgotten : db.tombstones hash ≡ false

abbrev Again : Python → ℕ → Db → ClaimedSnapshot → Db → Type 0
Again py i db s db' = IsReissuable py i db (proof_of s) × (db' ≡ db)

abbrev snapshot : ℕ → Touch → Prospect → String → String → ClaimedSnapshot
snapshot i t p m email = record {
  touch_id = i;
  tenant = p.tenant;
  mailbox = m;
  content_sha256 = t.content_hash;
  recipient = email;
}

module _ (py : Python) (i : ℕ) (db : Db) (t : Touch) (at : db.touches.rows i ≡ some t) where
  module _ (m : String) (p : Prospect) (was_claimed : t.status ≡ claimed)
      (has_mailbox : t.mailbox ≡ some m) (its : db.prospects.rows t.prospect_id ≡ some p) where
    module _
        (open_all : (db.control_flags global_scope ≡ none)
          × (db.control_flags p.tenant ≡ none)) where
      hit-Again :
          (email : String) (b : Bool) (s1 db' : Db) (s : ClaimedSnapshot)
          → p.email_canonical ≡ some email
          → is_suppressed py email p.tenant db ≡ (ok b, s1)
          → ◌≡◌ {A = Result (Option ClaimedSnapshot) × Db}
              (unless_hit py (snapshot i t p m email) b s1)
              (ok (some s), db')
          → Again py i db s db'
      hit-Again email true s1 db' s its_email e k = cc
      hit-Again email false s1 db' s its_email e k =
          let (h, hashed, clear, kept) = is_suppressed_false py email p.tenant db s1 e in
          let same : snapshot i t p m email ≡ s = ground (arith, k) in
          let read : s1 ≡ db =
            sym (ap (λ (x : Result Bool × Db). x.1) e) ∙ is_suppressed-same py email p.tenant db in
          let there : s1 ≡ db' = ap (λ (x : Result (Option ClaimedSnapshot) × Db). x.1) k in
          subst (λ x. Again py i db x db') same
            (
              record {
                touch = t;
                prospect = p;
                at = at;
                was_claimed = was_claimed;
                has_mailbox = has_mailbox;
                names_hash = refl;
                its_prospect = its;
                names_tenant = refl;
                names_recipient = its_email;
                not_halted = open_all.0;
                tenant_not_halted = open_all.1;
                not_suppressed = clear;
                names_touch = refl;
                hash = h;
                hashed = hashed;
                not_forgotten = kept;
              },
              sym there ∙ read,
            )

      address-Again :
          (o : Option String) (db' : Db) (s : ClaimedSnapshot)
          → p.email_canonical ≡ o
          → ◌≡◌ {A = Result (Option ClaimedSnapshot) × Db}
              (load_address py i p.tenant m t.content_hash o db)
              (ok (some s), db')
          → Again py i db s db'
      address-Again none db' s e h = cc
      address-Again (some email) db' s e h =
          let (b, s1, e1, k1) =
            after_returns (is_suppressed py email p.tenant db) _ (some s) db' h in
          hit-Again email b s1 db' s e e1 k1

    open-Again :
        (scopes : List String) (db' : Db) (s : ClaimedSnapshot)
        → Control.halted_scopes p.tenant db ≡ scopes
        → ◌≡◌ {A = Result (Option ClaimedSnapshot) × Db}
            (load_open py i m t.content_hash p scopes db)
            (ok (some s), db')
        → Again py i db s db'
    open-Again (x ∷ xs) db' s e h = cc
    open-Again [] db' s e h =
        address-Again (halted_scopes-nil p.tenant db e) p.email_canonical db' s refl h

  joined-Again :
      (m : String) (o : Option Prospect) (db' : Db) (s : ClaimedSnapshot)
      → t.status ≡ claimed
      → t.mailbox ≡ some m
      → db.prospects.rows t.prospect_id ≡ o
      → ◌≡◌ {A = Result (Option ClaimedSnapshot) × Db}
          (load_joined py i m t.content_hash o db)
          (ok (some s), db')
      → Again py i db s db'
  joined-Again m none db' s c hm e h = cc
  joined-Again m (some p) db' s c hm e h =
      open-Again m p c hm e (Control.halted_scopes p.tenant db) db' s refl h

  mailbox-Again :
      (b : Bool) (o : Option String) (db' : Db) (s : ClaimedSnapshot)
      → is_claimed t.status ≡ b
      → t.mailbox ≡ o
      → ◌≡◌ {A = Result (Option ClaimedSnapshot) × Db}
          (load_mailbox py i t b o db)
          (ok (some s), db')
      → Again py i db s db'
  mailbox-Again true (some m) db' s c e h =
      joined-Again m (db.prospects.rows t.prospect_id) db' s (ground (arith, c)) e refl h
  mailbox-Again true none db' s c e h = cc
  mailbox-Again false o db' s c e h = cc

touch-Again :
    (py : Python) (i : ℕ) (o : Option Touch) (db db' : Db) (s : ClaimedSnapshot)
    → db.touches.rows i ≡ o
    → ◌≡◌ {A = Result (Option ClaimedSnapshot) × Db} (load_touch py i o db) (ok (some s), db')
    → Again py i db s db'
touch-Again py i none db db' s e h = cc
touch-Again py i (some t) db db' s e h =
    mailbox-Again py i db t e (is_claimed t.status) t.mailbox db' s refl refl h

loaded-Again :
    (py : Python) (i : ℕ) (db db' : Db) (c : ClaimedTouch)
    (x : Result (Option ClaimedSnapshot) × Db)
    → ◌≡◌ {A = Result (Option ClaimedSnapshot) × Db} (load_touch py i (db.touches.rows i) db) x
    → ◌≡◌ {A = Result Verdict × Db} (reissue_loaded x) (ok (issued c), db')
    → IsReissuable py i db c × (db' ≡ db)
loaded-Again py i db db' c (err e, s) h k = cc
loaded-Again py i db db' c (ok none, s) h k = cc
loaded-Again py i db db' c (ok (some snap), s) h k =
    let (fit, same) = touch-Again py i (db.touches.rows i) db s snap refl h in
    let made : proof_of snap ≡ c = ground (arith, k) in
    (subst (IsReissuable py i db) made fit, sym (ap (λ (y : Result Verdict × Db). y.1) k) ∙ same)

-- A proof is reissued for a touch only if its row is claimed and holds the proof's mailbox and content
-- hash, its prospect's address is the recipient, and again no halt is set, globally or for the tenant,
-- and the address is neither suppressed nor forgotten. Nothing is written.
pub reissue-IsReissuable :
    (py : Python) (i : ℕ) (db db' : Db) (c : ClaimedTouch)
    → reissue (pg_dispatch py) i db ≡ (ok (issued c), db')
    → IsReissuable py i db c × (db' ≡ db)
unfolding reissue load_claimed
reissue-IsReissuable py i db db' c e = loaded-Again py i db db' c _ refl e
