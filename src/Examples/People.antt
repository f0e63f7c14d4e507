-- ===== src/Examples/People.antt =====
-- Entities, deletions and link tokens at the demo database.
use open_reachout.Base.{
  err, type_error, ◌≡◌, inl, refl, String, false, none, some, List, [], ◌∷◌, ok, append, any_char,
  before, behind, strip_left, strip_right, first, find_text, starts_with, remove_chars, string_eq,
  ◌==◌, if◌then◌else◌, ℕ, true, Option, Result, insert, empty_table,
}
use open_reachout.Db.{Db}
use open_reachout.Canonical.{canonicalize, tombstone_hash}
use open_reachout.Queue.{enqueue, taken}
use open_reachout.Gatekeeper.{issued, claim}
use open_reachout.PgStore.{pg_store}
use open_reachout.Forget.{ForgetReceipt, address, forget}
use open_reachout.Forget.Gone.{Gone, forget-claim}
use open_reachout.Attribution.{Tokens, token_for, verify, mac_of, tokenize_links}
use open_reachout.Attribution.RoundTrip.{IsHex, is_wide, verify-token_for}
use open_reachout.Entities.{Candidate, KeyPair, deterministic_keys, resolve_entity, is_held}
use open_reachout.Entities.Keys.{All, IsOwn}
use open_reachout.Entities.Again.{resolve_entity_again}
use open_reachout.States.{contacted}
use open_reachout.Db.{Prospect}
use open_reachout.Drafts.{queue_draft}
use open_reachout.Referrals.{
  direct, Persona, Runtimes, ComposeResult, find_persona, load_for_referral, process_positive_event,
}
use open_reachout.Referrals.Once.{asks, process_positive_event-Once}
use open_reachout.Examples.Demo.{plain, lenient, demo, demo_draft, demo_claim, ann}

abbrev forgotten_demo : Db
forgotten_demo = (forget plain (address "ann@example.com") demo).1

abbrev receipt : ForgetReceipt
receipt = record { receipt_id = 0; entity_ids = 0 ∷ []; addresses_tombstoned = 1 }

was_forgotten : forget plain (address "ann@example.com") demo ≡ (ok receipt, forgotten_demo)
unfolding forget canonicalize tombstone_hash any_char strip_right strip_left behind before append
    enqueue taken first
was_forgotten = refl

ann_canonical : canonicalize plain "ann@example.com" ≡ some "ann@example.com"
unfolding canonicalize any_char strip_right strip_left behind before append
ann_canonical = refl

forget-claim_example : ¬ (
    claim (pg_store plain 90 8) lenient demo_draft forgotten_demo
    ≡ (ok (issued demo_claim), forgotten_demo))
forget-claim_example =
    forget-claim plain 90 8 lenient demo_draft (address "ann@example.com") demo forgotten_demo
      forgotten_demo receipt demo_claim was_forgotten (inl ("ann@example.com", refl, ann_canonical))

-- Ids are their own hex form, and a digest is the key.
abbrev plain_tokens : Tokens
plain_tokens = record { uuid_hex = λ s. some s; uuid_str = λ s. s; hmac = λ key s. key }

IsHex-ab12 : IsHex plain_tokens "ab12"
unfolding any_char
IsHex-ab12 = record { no_dot = refl; same = refl }

plain_digest : is_wide (mac_of plain_tokens "secret" "ab12") ≡ false
unfolding any_char
plain_digest = refl

verify-token_for_example :
    (token : String) × (token_for plain_tokens "ab12" "secret" ≡ some token)
    × (verify plain_tokens token "secret" ≡ ok (some (plain_tokens.uuid_str "ab12")))
    × ((mac : String)
        → verify plain_tokens (append "ab12" (String.◌∷◌ "." mac)) "secret" ≡ (
            if is_wide mac
            then err type_error
            else (if mac_of plain_tokens "secret" "ab12" == mac
                then ok (some (plain_tokens.uuid_str "ab12"))
                else ok none)))
verify-token_for_example =
    verify-token_for plain_tokens "ab12" "secret" "ab12" refl IsHex-ab12 plain_digest

link_tagged :
    tokenize_links plain_tokens plain "see https://a.test/x?y=1 now" "ab12" "secret"
    ≡ some "see https://a.test/x?y=1&t=ab12.secret now"
unfolding tokenize_links append any_char
link_tagged = refl

abbrev clinic : Candidate
clinic = record {
  display_name = "Ann's clinic";
  website = some "https://www.ann.test/about";
  email_raw = some "ann@example.com";
  phone = some "+1 (555) 010-2030";
  source_ref = ("npi", "1234") ∷ [];
}

abbrev clinic_keys : List KeyPair
clinic_keys = ("npi", "1234") ∷ ("domain_phone", "ann.test|5550102030") ∷ []

keys_of_clinic :
    deterministic_keys plain clinic ≡ ("email_canonical", "ann@example.com") ∷ clinic_keys
unfolding deterministic_keys canonicalize any_char strip_right strip_left behind before append
    find_text starts_with remove_chars
keys_of_clinic = refl

free_keys :
    All
      (IsOwn "acme" demo.entities.rows demo.entity_keys)
      (("email_canonical", "ann@example.com") ∷ clinic_keys)
unfolding is_held
free_keys = (inl refl, (inl refl, (inl refl, tt)))

resolve_entity_again_example :
    let one = resolve_entity plain "acme" clinic demo in
    let two = resolve_entity plain "acme" clinic one.1 in
    (two.0.entity_id ≡ one.0.entity_id) × (two.0.created ≡ false) × (two.1 ≡ one.1)
resolve_entity_again_example =
    resolve_entity_again plain "acme" clinic ("email_canonical", "ann@example.com") clinic_keys demo
      keys_of_clinic free_keys

abbrev pleased : Prospect
pleased = record ann { state = contacted }

abbrev pleased_demo : Db
pleased_demo = record demo { prospects = insert pleased empty_table }

abbrev referring : Runtimes
referring tenant = some (
    record {
      id = ann.persona_id;
      referral = some (record { prompt = "Ask them for a colleague"; mode = direct });
    }
    ∷ [])

abbrev composed : Persona → String → ℕ → Db → Result (Option ComposeResult)
composed persona prompt p db = ok (
    some (record {
      draft = record { subject = "Colleagues"; body = "Who else?"; step_index = 0 };
      content_sha256 = "Who else?";
    }))

asked_once : asks (process_positive_event lenient none referring composed 0 pleased_demo).0 ≡ true
unfolding process_positive_event load_for_referral find_persona queue_draft enqueue taken first
asked_once = refl

still_there :
    (process_positive_event lenient none referring composed 0 pleased_demo).1.prospects.rows 0
    ≡ some pleased
unfolding process_positive_event load_for_referral find_persona queue_draft enqueue taken first
    append
still_there = refl

process_positive_event-Once_example :
    let done = process_positive_event lenient none referring composed 0 pleased_demo in
    let again = process_positive_event lenient none referring composed 0 done.1 in
    (asks again.0 ≡ false) × (again.1 ≡ done.1)
process_positive_event-Once_example =
    process_positive_event-Once lenient none referring composed 0 0 pleased_demo pleased pleased
      asked_once refl still_there refl
