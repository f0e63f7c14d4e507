-- ===== src/Examples/Demo.antt =====
-- A deployment with one tenant, one prospect, one drafted touch and one mailbox.
use Prim.Native.Char.{code}
use open_reachout.Base.{
  String, true, false, Option, none, some, [], ◌∷◌, ok, empty_table, insert, is_char, leb, ◌&&◌,
}
use open_reachout.States.{queued}
use open_reachout.Db.{
  Db, Touch, TouchKind, drafted, Prospect, Entity, Counter, ScopeType, tenant_month, cohort_month,
  mailbox_day, ClaimedTouch,
}
use open_reachout.Canonical.{Python}
use open_reachout.Gatekeeper.{DraftTouch, Checks, GateProfile}
use open_reachout.Deliver.{Setup}

abbrev pub plain : Python
plain = record {
  lower = λ c. c;
  is_space = is_char b' ';
  idna = λ d. some d;
  sha256 = λ s. s;
  is_word = λ c. leb b'a' (code c) && leb (code c) b'z';
  is_digit = λ c. leb b'0' (code c) && leb (code c) b'9';
  same_letter = λ d. is_char (code d);
  isdigit = λ c. leb b'0' (code c) && leb (code c) b'9';
}

abbrev pub lenient : Checks (Unit {0})
lenient = record { content_hash = λ d. d.body; validate = λ d c. ok [] }

abbrev pub first_touch : Touch
first_touch = record {
  prospect_id = 0;
  campaign_id = "intro";
  variant_id = some "v1";
  step_index = 0;
  kind = TouchKind.cold;
  status = drafted;
  subject = some "Hello";
  body = some "Dear Ann";
  content_hash = "Dear Ann";
  mailbox = none;
  scrubbed = false;
  claimed_at = none;
  sent_at = none;
}

abbrev pub ann : Prospect
ann = record {
  tenant = "acme";
  entity_id = 0;
  cohort_id = "c1";
  persona_id = "p1";
  state = queued;
  email_raw = some "Ann@Example.com";
  email_canonical = some "ann@example.com";
  source_ref = ("npi", "1234") ∷ [];
  email_verified = true;
}

abbrev pub person : Entity
person = record {
  last_campaign_contact_at = none;
  active_sequence_touch_id = none;
  touches_12mo = 0;
  active = true;
  referral_asked = false;
  tenant = "acme";
  display_name = none;
}

abbrev pub month_counters : ScopeType → String → String → Option Counter
month_counters tenant_month id p = some (record { used = 3; cap = 10 })
month_counters cohort_month id p = some (record { used = 1; cap = 5 })
month_counters mailbox_day id p = none

abbrev pub demo : Db
demo = record {
  now = 1000000;
  month = "2026-11";
  today = "2026-11-25";
  jobs = empty_table;
  touches = insert first_touch empty_table;
  prospects = insert ann empty_table;
  entities = insert person empty_table;
  replies = empty_table;
  suppressions = [];
  tombstones = λ h. false;
  control_flags = λ s. none;
  counters = month_counters;
  mailboxes =
      record { mailbox = "hi@acme.test"; tenant = "acme"; warmup_complete = true; daily_cap = 25 }
      ∷ [];
  variant_stats = λ t v. none;
  provider_events = λ e. false;
  escalations = empty_table;
  human_tasks = empty_table;
  proposals = empty_table;
  entity_keys = [];
  evidence_facts = empty_table;
  receipts = 0;
  gate_results = λ i. [];
  audit = [];
  outbox = [];
}

abbrev pub demo_draft : DraftTouch (Unit {0})
demo_draft = record {
  touch_id = 0;
  tenant = "acme";
  entity_id = 0;
  email_canonical = "ann@example.com";
  draft = record { subject = "Hello"; body = "Dear Ann"; step_index = 0 };
  stored_content_hash = "Dear Ann";
  groundedness_passed_hash = some "Dear Ann";
  profile = GateProfile.cold;
  validator_ctx = tt;
  cohort_id = "c1";
  prospect_id = 0;
}

abbrev pub demo_claim : ClaimedTouch
demo_claim = record {
  touch_id = 0;
  tenant = "acme";
  mailbox = "hi@acme.test";
  content_sha256 = "Dear Ann";
  recipient = "ann@example.com";
}

abbrev pub demo_setup : Setup (Unit {0})
demo_setup = record {
  py = plain;
  checks = lenient;
  min_gap_days = 90;
  annual_cap = 8;
  send = λ m. ok tt;
  validator_ctx_for = λ tenant. some tt;
  sequences = some (λ tenant persona. some (record { steps = 3; gaps_days = 3 ∷ 4 ∷ [] }));
}
