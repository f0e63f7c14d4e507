-- ===== src/Referrals.antt =====
-- The referral ask after a positive event (src/open_reachout/core/referrals.py, with the look-up of
-- the prospect in src/open_reachout/core/prospecting.py). What `_compose_result` makes of the prompt,
-- the stored evidence and the model is a parameter.
pub mod Once
use open_reachout.Base.{
  ℕ, String, Bool, true, false, not, ◌&&◌, ◌||◌, Option, none, some, List, [], ◌∷◌, Exec, Result,
  ok, err, Error, key_error, pure, raise, ◌>>=◌, ◌>>◌, string_eq, ◌==◌, if◌then◌else◌, update,
  row_is, append,
}
use open_reachout.States.{ProspectState, converted, engaged, contacted}
use open_reachout.Db.{Db, Prospect, Entity, prospect_subject, agentic_reply}
use open_reachout.Gatekeeper.{Draft, Checks}
use open_reachout.Drafts.{NewDraft, queue_draft}
use open_reachout.Escalations.{escalate}
use open_reachout.HumanTasks.{create_for_step}

-- The mode: `on_behalf_of` or, if it is not set, `direct`.
pub data Mode : Type 0 where
  direct on_behalf_of : Mode

pub record ReferralSpec : Type 0 where
  pub prompt : String
  pub mode : Mode

-- What a referral reads of a PersonaSpec
pub record Persona : Type 0 where
  pub id : String
  pub referral : Option ReferralSpec

-- The personas of each tenant's runtime
abbrev pub Runtimes : Type 0
Runtimes = String → Option (List Persona)

-- ComposeResult
pub record ComposeResult : Type 0 where
  pub draft : Draft
  pub content_sha256 : String

-- state = ANY(('converted', 'engaged', 'contacted'))
abbrev pub is_positive : ProspectState → Bool
is_positive converted = true
is_positive engaged = true
is_positive contacted = true
is_positive _ = false

-- next((p for p in personas if p.id == persona_id), None)
unfoldable pub find_persona : String → List Persona → Option Persona
find_persona i [] = none
find_persona i (p ∷ ps) = let rest = find_persona i ps in if p.id == i then some p else rest

abbrev pub in_runtime : String → Option (List Persona) → Result (Option Persona)
in_runtime i none = err key_error
in_runtime i (some ps) = ok (find_persona i ps)

-- The entity that a prospect joins
abbrev pub entity_row : Option Prospect → Db → Option Entity
entity_row none db = none
entity_row (some p) db = db.entities.rows p.entity_id

-- _persona_and_candidate: the persona; its candidate is the row of the prospect.
abbrev pub load_persona : Runtimes → Option Prospect → Option Entity → Result (Option Persona)
load_persona runtimes (some p) (some e) =
    if is_positive p.state then in_runtime p.persona_id (runtimes p.tenant) else ok none
load_persona runtimes _ _ = ok none

unfoldable pub load_for_referral : Runtimes → ℕ → Db → Result (Option Persona)
unfolding find_persona
load_for_referral runtimes p db =
    load_persona runtimes (db.prospects.rows p) (entity_row (db.prospects.rows p) db)

-- referral_asked = false AND status = 'active'
abbrev pub askable : Entity → Bool
askable e = not e.referral_asked && e.active

abbrev pub mark_asked : Entity → Entity
mark_asked e = record e { referral_asked = true }

-- The rowcount of the UPDATE as a truth value
abbrev pub may_ask : ℕ → Db → Bool
may_ask p db = row_is askable (entity_row (db.prospects.rows p) db)

abbrev pub mark_entity : Option Prospect → Db → Db
mark_entity none db = db
mark_entity (some p) db = record db { entities = update p.entity_id mark_asked db.entities }

-- runtime.config.tenant: a runtime is stored under its own tenant's slug.
abbrev pub tenant_of : Option Prospect → String
tenant_of none = ""
tenant_of (some p) = p.tenant

abbrev pub campaign_of : Persona → String
campaign_of persona = append persona.id ":referral"

abbrev pub instruction_of : String → String
instruction_of body =
    append
      "Deliver this colleague-invite draft to the provider; THEY send it (or explicitly consent to visible on-behalf-of sending). Draft:\n"
      body

module _ {C : Type 0} (checks : Checks C) (tokenize : Option (ℕ → String → String))
    (runtimes : Runtimes)
    (compose : Persona → String → ℕ → Db → Result (Option ComposeResult)) where
  abbrev pub ask_by : Mode → ℕ → Persona → ComposeResult → Exec Db (Option ℕ)
  ask_by on_behalf_of p persona r = λ db.
      (do
        task ←
            create_for_step (tenant_of (db.prospects.rows p)) p (campaign_of persona) 0
              (instruction_of r.draft.body)
        pure (some task))
        db
  ask_by direct p persona r = do
    touch ←
        queue_draft checks tokenize
          (record {
            prospect_id = p;
            campaign_id = campaign_of persona;
            variant_id = none;
            kind = agentic_reply;
            draft = record r.draft { step_index = 0 };
            content_hash = r.content_sha256;
          })
          0
    pure (some touch)

  -- `ok none` stands for a ComposeEscalation or a KeyError, which _compose_result escalates.
  abbrev pub ask_composed : Mode → ℕ → Persona → Result (Option ComposeResult) → Exec Db (Option ℕ)
  ask_composed mode p persona (err e) = raise e
  ask_composed mode p persona (ok none) = λ db.
      (do
        _ ←
            escalate (some (tenant_of (db.prospects.rows p))) (prospect_subject p)
              "referral compose failed"
        pure none)
        db
  ask_composed mode p persona (ok (some r)) = ask_by mode p persona r

  abbrev pub ask : ℕ → Persona → ReferralSpec → Exec Db (Option ℕ)
  ask p persona spec db = ask_composed spec.mode p persona (compose persona spec.prompt p db) db

  abbrev pub ask_once : ℕ → Persona → ReferralSpec → Exec Db (Option ℕ)
  ask_once p persona spec db =
      if may_ask p db
      then ask p persona spec (mark_entity (db.prospects.rows p) db)
      else pure none db

  abbrev pub ask_for : ℕ → Persona → Option ReferralSpec → Exec Db (Option ℕ)
  ask_for p persona none = pure none
  ask_for p persona (some spec) = ask_once p persona spec

  abbrev pub ask_loaded : ℕ → Result (Option Persona) → Exec Db (Option ℕ)
  ask_loaded p (err e) = raise e
  ask_loaded p (ok none) = pure none
  ask_loaded p (ok (some persona)) = ask_for p persona persona.referral

  unfoldable pub process_positive_event : ℕ → Exec Db (Option ℕ)
  unfolding load_for_referral
  process_positive_event p db = ask_loaded p (load_for_referral runtimes p db) db
