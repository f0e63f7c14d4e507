-- ===== src/Lifecycle/Writes.antt =====
-- What any sequence of calls of `transition` (src/open_reachout/core/lifecycle.py) can do to a prospect.
use open_reachout.Base.{
  ℕ, ◌≡◌, ◌⊎◌, refl, String, true, false, Option, none, some, List, [], ◌∷◌, arith, ℕ_eq, ◌==◌,
  ==_iff, Bool-cases, inl, inr, contains, ap, ◌∙◌, sym,
}
use open_reachout.States.{
  ProspectState, state_eq, allowed, assert_transition, contactable, forgotten,
}
use open_reachout.States.Reach.{Leads, here, next, IsExit, exit-not_contactable}
use open_reachout.Db.{Db, Prospect}
use open_reachout.Lifecycle.{transition, transition_from, write_state}

-- A call: which prospect, to which state, by whom.
pub record Call : Type 0 where
  pub prospect_id : ℕ
  pub target : ProspectState
  pub actor : String

-- The database after these calls, those that raise included.
unfoldable pub transition_all : List Call → Db → Db
transition_all [] db = db
transition_all (c ∷ cs) db = transition_all cs (transition c.prospect_id c.target c.actor db).1

-- Row j still holds the prospect p, but for its state, which allowed transitions lead to.
pub record Keeps (j : ℕ) (s : ProspectState) (p : Prospect) (db : Db) : Type 0 where
  pub state : ProspectState
  pub at : db.prospects.rows j ≡ some (record p { state = state })
  pub leads : Leads s state

module _ (j : ℕ) (s : ProspectState) (p : Prospect) where
  moved-Keeps :
      (i : ℕ) (current target : ProspectState) (actor : String) (q : Prospect) (db : Db)
      → db.prospects.rows i ≡ some q
      → q.state ≡ current
      → allowed current target ≡ true
      → Keeps j s p db
      → Keeps j s p (write_state i current target actor db)
  moved-Keeps i current target actor q db at_i now ok' k = elim (Bool-cases (i == j)) [
    | inr f ↦ record { state = k.state; at = rw f k.at; leads = k.leads }
    | inl t ↦
        let same : i ≡ j = (==_iff i j).0 t in
        let there : some q ≡ some (record p { state = k.state }) =
          sym at_i ∙ (ap db.prospects.rows same ∙ k.at) in
        record {
          state = target;
          at = rw (t, k.at);
          leads = next k.leads (ground (arith, there, now, ok'));
        }
  ]

  from-Keeps :
      (i : ℕ) (target : ProspectState) (actor : String) (o : Option Prospect) (db : Db)
      → db.prospects.rows i ≡ o
      → Keeps j s p db
      → Keeps j s p (transition_from i target actor o db).1
  unfolding assert_transition
  from-Keeps i target actor none db e k = k
  from-Keeps i target actor (some q) db e k = elim (Bool-cases (allowed q.state target)) [
    | inl t ↦ rw t (moved-Keeps i q.state target actor q db e refl t k)
    | inr f ↦ rw f k
  ]

  all-Keeps : (cs : List Call) (db : Db) → Keeps j s p db → Keeps j s p (transition_all cs db)
  unfolding transition_all transition
  all-Keeps [] db k = k
  all-Keeps (c ∷ cs) db k =
      all-Keeps cs _
        (from-Keeps c.prospect_id c.target c.actor (db.prospects.rows c.prospect_id) db refl k)

-- However often `transition` is called, for whichever prospects, targets and actors, a prospect that
-- has left the funnel (converted, disqualified, unenrichable, bounced, declined or unsubscribed) keeps
-- its row, and its state stays what it was or becomes forgotten: never again a contactable one.
pub transition_all-exit :
    (cs : List Call) (db : Db) (j : ℕ) (p : Prospect)
    → db.prospects.rows j ≡ some p
    → IsExit p.state
    → (t : ProspectState) × ((transition_all cs db).prospects.rows j
        ≡ some (record p { state = t }))
      × ((t ≡ p.state) ⊎ (t ≡ forgotten))
      × (contains contactable t ≡ false)
transition_all-exit cs db j p e x =
    let k = all-Keeps j p.state p cs db (record { state = p.state; at = e; leads = here }) in
    (k.state, k.at, (exit-not_contactable x k.leads).0, (exit-not_contactable x k.leads).1)
