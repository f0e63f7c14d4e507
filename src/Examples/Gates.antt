-- ===== src/Examples/Gates.antt =====
-- Claims and deliveries at the demo database.
use open_reachout.Base.{
  ◌≡◌, ◌↔◌, refl, String, true, false, Option, some, List, [], ◌∷◌, ok, arith, any_char,
  strip_right, strip_left, behind, before, first, insert, empty_table, OnRow, if◌then◌else◌, ◌==◌,
  string_eq,
}
use open_reachout.Db.{Db, Mailbox, Counter, ScopeType, tenant_month, cohort_month, mailbox_day}
use open_reachout.Canonical.{canonicalize, tombstone_hash}
use open_reachout.Suppression.{is_suppressed, any_row}
use open_reachout.Control.{halted_scopes}
use open_reachout.Gatekeeper.{claim, issued, refused, Refusal, gate, confidence}
use open_reachout.Gatekeeper.Passed.{Passed}
use open_reachout.Gatekeeper.Order.{claim-issued_iff}
use open_reachout.PgStore.{pg_store, consume, least_used}
use open_reachout.PgStore.Refunds.{consume-counters}
use open_reachout.PgStore.Refusals.{SameMonths, claim-refunds}
use open_reachout.PgStore.Budget.{InCap, AllInCap, claim-AllInCap}
use open_reachout.PgStore.Sendable.{IsSendable}
use open_reachout.PgStore.Claims.{claim-IsSendable}
use open_reachout.Deliver.{deliver_touch}
use open_reachout.Deliver.Safety.{Sent, deliver-Sent}
use open_reachout.Examples.Demo.{
  plain, lenient, ann, demo, demo_draft, demo_claim, demo_setup, month_counters,
}

abbrev after_claim : Db
after_claim = (claim (pg_store plain 90 8) lenient demo_draft demo).1

demo_issued :
    claim (pg_store plain 90 8) lenient demo_draft demo ≡ (ok (issued demo_claim), after_claim)
unfolding claim pg_store halted_scopes is_suppressed tombstone_hash canonicalize any_row any_char
    strip_right strip_left behind before first
demo_issued = refl

claim-IsSendable_example : IsSendable plain 90 8 lenient demo_draft demo demo_claim after_claim
claim-IsSendable_example =
    claim-IsSendable plain 90 8 lenient demo_draft demo after_claim demo_claim demo_issued

deliver-Sent_example : Sent demo_setup 0 demo (deliver_touch demo_setup 0 demo).1.outbox
deliver-Sent_example = deliver-Sent demo_setup 0 demo

claim-issued_iff_example :
    (claim (pg_store plain 90 8) lenient demo_draft demo ≡ (ok (issued demo_claim), after_claim))
    ↔ Passed (pg_store plain 90 8) lenient demo_draft demo demo_claim after_claim
claim-issued_iff_example =
    claim-issued_iff (pg_store plain 90 8) lenient demo_draft demo_claim after_claim demo

-- The same deployment, with the prospect's address not yet verified.
abbrev unverified : Db
unverified = record demo { prospects = insert (record ann { email_verified = false }) empty_table }

abbrev not_confident : Refusal
not_confident = record { reason = confidence; detail = gate "confidence"; terminal = true }

abbrev after_refusal : Db
after_refusal = (claim (pg_store plain 90 8) lenient demo_draft unverified).1

unverified_refused :
    claim (pg_store plain 90 8) lenient demo_draft unverified
    ≡ (ok (refused not_confident), after_refusal)
unfolding claim pg_store halted_scopes is_suppressed tombstone_hash canonicalize any_row any_char
    strip_right strip_left behind before first
unverified_refused = refl

claim-refunds_example : SameMonths unverified after_refusal
claim-refunds_example =
    claim-refunds plain 90 8 lenient demo_draft unverified after_refusal not_confident
      unverified_refused (λ e. cc)

months-InCap : (st : ScopeType) (id p : String) → OnRow InCap (month_counters st id p)
months-InCap tenant_month id p = omega arith
months-InCap cohort_month id p = omega arith
months-InCap mailbox_day id p = tt

demo-AllInCap : AllInCap demo
demo-AllInCap = record { at = months-InCap }

claim-AllInCap_example : AllInCap (claim (pg_store plain 90 8) lenient demo_draft demo).1
claim-AllInCap_example = claim-AllInCap plain 90 8 lenient demo_draft demo demo-AllInCap

consume-counters_example :
    ((consume "acme" "c1" demo).0 ≡ true)
    × ((consume "acme" "c1" demo).1.counters tenant_month "acme" "2026-11"
        ≡ some (record { used = 4; cap = 10 }))
consume-counters_example = consume-counters "acme" "c1" demo tenant_month "acme" "2026-11"

abbrev day_counter : String → Option Counter
day_counter m =
    if m == "a@acme.test"
    then some (record { used = 7; cap = 25 })
    else some (record { used = 2; cap = 25 })

abbrev inbox : String → Mailbox
inbox m = record { mailbox = m; tenant = "acme"; warmup_complete = true; daily_cap = 25 }

abbrev two_mailboxes : List Mailbox
two_mailboxes = inbox "a@acme.test" ∷ inbox "b@acme.test" ∷ []

picks_b : least_used "acme" day_counter two_mailboxes ≡ some (inbox "b@acme.test")
unfolding least_used
picks_b = refl
