-- ===== src/Examples/Controls.antt =====
-- Halts, suppressions, reviews, repeated deliveries and the learning loop at the demo database.
use open_reachout.Base.{
  ◌+◌, ℕ, Option, ltb, ◌<◌, ◌≤◌, ◌≡◌, ◌≢◌, ◌⊎◌, inl, inr, refl, ap, String, true, false, ◌||◌, none,
  some, List, [], ◌∷◌, ok, starts_with, append, any_char, strip_right, strip_left, behind, before,
  first, insert, empty_table, contains,
}
use open_reachout.States.{
  ProspectState, queued, unsubscribed, forgotten, contactable, state_eq, allowed,
}
use open_reachout.States.Reach.{exit_unsubscribed}
use open_reachout.Db.{
  Db, Touch, TouchKind, cohort_month, pending_review, drafted, released, claimed, Prospect,
}
use open_reachout.Canonical.{canonicalize, tombstone_hash}
use open_reachout.Queue.{enqueue, taken}
use open_reachout.Suppression.{is_suppressed, any_row, suppress}
use open_reachout.Suppression.Rows.{suppress-claim}
use open_reachout.Control.{halt, resume, halted_scopes}
use open_reachout.Control.Flags.{halt_refusal, halt-claim}
use open_reachout.Gatekeeper.{claim, issued, refused}
use open_reachout.PgStore.{pg_store}
use open_reachout.Lifecycle.Writes.{Call, transition_all, transition_all-exit}
use open_reachout.Drafts.{NewDraft, prior_touches, queue_draft, approve_pending, review}
use open_reachout.Drafts.Ramp.{queue_draft-ramp}
use open_reachout.Learning.{bounce, observe, stats_or_cold, record_guardrail, record_trial}
use open_reachout.Learning.Guardrails.{exceeds, record_guardrail-row}
use open_reachout.Deliver.{deliver_touch, gap_at}
use open_reachout.Deliver.Again.{deliver_again}
use open_reachout.Reissue.{reissue, load_claimed, pg_dispatch}
use open_reachout.Reissue.Reissued.{IsReissuable, reissue-IsReissuable}
use open_reachout.Escalations.{escalate}
use open_reachout.Sentiment.{Scores, evaluate_cohort, evaluate_score}
use open_reachout.Sentiment.Caps.{Acted, capped, evaluate_cohort-caps}
use open_reachout.Examples.Demo.{
  plain, lenient, ann, first_touch, demo, demo_draft, demo_claim, demo_setup,
}

halt-claim_example :
    let db' = (halt "global" "system:killswitch" "halted" demo).1 in
    claim (pg_store plain 90 8) lenient demo_draft db' ≡ (ok (refused halt_refusal), db')
halt-claim_example =
    halt-claim plain 90 8 lenient demo_draft "global" "system:killswitch" "halted" demo (inl refl)

abbrev halted_demo : Db
halted_demo = record demo {
  control_flags = λ s. some (record { flag = "halted"; set_by = "system:killswitch" });
}

acme_resumed : (resume "acme" "operator:kim" halted_demo).1.control_flags "acme" ≡ none
unfolding resume starts_with
acme_resumed = refl

abbrev opted_out : Db
opted_out = (suppress plain "ann@example.com" "acme" "unsubscribe" none true demo).1

opted_out_returns :
    suppress plain "ann@example.com" "acme" "unsubscribe" none true demo
    ≡ (ok "ann@example.com", opted_out)
unfolding suppress canonicalize any_char strip_right strip_left behind before enqueue taken first
    append
opted_out_returns = refl

suppress-claim_example : ¬ (
    claim (pg_store plain 90 8) lenient demo_draft opted_out ≡ (ok (issued demo_claim), opted_out))
suppress-claim_example =
    suppress-claim plain 90 8 lenient demo_draft "ann@example.com" "acme" "unsubscribe" none true
      demo opted_out opted_out demo_claim opted_out_returns (inr refl) refl

abbrev after_delivery : Db
after_delivery = (deliver_touch demo_setup 0 demo).1

demo_delivered : deliver_touch demo_setup 0 demo ≡ (ok tt, after_delivery)
unfolding deliver_touch claim pg_store halted_scopes is_suppressed tombstone_hash any_char
    strip_right strip_left behind before any_row first gap_at allowed enqueue append record_trial
    taken
demo_delivered = refl

sent_once :
    after_delivery.outbox ≡ record { claim = demo_claim; subject = "Hello"; body = "Dear Ann" } ∷ []
unfolding deliver_touch claim pg_store halted_scopes is_suppressed tombstone_hash any_char
    strip_right strip_left behind before any_row first gap_at allowed enqueue append record_trial
    taken
sent_once = refl

deliver_again_example : (deliver_touch demo_setup 0 after_delivery).1 ≡ after_delivery
deliver_again_example = deliver_again demo_setup 0 demo after_delivery demo_delivered

abbrev claimed_demo : Db
claimed_demo = record demo {
  touches =
      insert (record first_touch { status = claimed; mailbox = some "hi@acme.test" }) empty_table;
}

reissued : reissue (pg_dispatch plain) 0 claimed_demo ≡ (ok (issued demo_claim), claimed_demo)
unfolding reissue load_claimed halted_scopes is_suppressed tombstone_hash canonicalize any_char
    strip_right strip_left behind before any_row append
reissued = refl

reissue-IsReissuable_example :
    IsReissuable plain 0 claimed_demo demo_claim × (claimed_demo ≡ claimed_demo)
reissue-IsReissuable_example =
    reissue-IsReissuable plain 0 claimed_demo claimed_demo demo_claim reissued

-- The first touch waits for a reviewer.
abbrev pending_demo : Db
pending_demo = record demo {
  touches = insert (record first_touch { status = pending_review }) empty_table;
}

approval_writes : (approve_pending 0 "operator:kim" pending_demo).1 ≢ pending_demo
unfolding approve_pending starts_with enqueue taken first
approval_writes e = cc (ap (λ (db : Db). db.touches.rows 0) e)

abbrev second_draft : NewDraft
second_draft = record {
  prospect_id = 0;
  campaign_id = "intro";
  variant_id = some "v1";
  kind = TouchKind.cold;
  draft = record { subject = "Hello"; body = "Dear Ann"; step_index = 1 };
  content_hash = "Dear Ann";
}

queue_draft-ramp_example :
    let db' = (queue_draft lenient none second_draft 2 demo).1 in
    let prior = prior_touches "intro" (some "v1") in
    ((t : Touch) × (db'.touches.rows 1 ≡ some t)
      × (prior demo < 2 → (t.status ≡ pending_review) × (db'.jobs ≡ demo.jobs))
      × (2 ≤ prior demo → t.status ≡ drafted))
    × (prior (review 1 released db') ≡ prior demo + 1)
queue_draft-ramp_example = queue_draft-ramp lenient none second_draft 2 demo 1 released

record_guardrail-row_example :
    let seen = observe bounce (stats_or_cold none) in
    (record_guardrail "acme" "v1" bounce demo).1.variant_stats "acme" "v1"
    ≡ some (record seen { paused = seen.paused || exceeds seen })
record_guardrail-row_example = record_guardrail-row "acme" "v1" bounce demo

abbrev left : Prospect
left = record ann { state = unsubscribed }

abbrev left_demo : Db
left_demo = record demo { prospects = insert left empty_table }

abbrev attempts : List Call
attempts =
    record { prospect_id = 0; target = queued; actor = "system:reengage" }
    ∷ record { prospect_id = 0; target = forgotten; actor = "system:forget" }
    ∷ []

transition_all-exit_example :
    (t : ProspectState) × ((transition_all attempts left_demo).prospects.rows 0
      ≡ some (record left { state = t }))
    × ((t ≡ unsubscribed) ⊎ (t ≡ forgotten))
    × (contains contactable t ≡ false)
transition_all-exit_example = transition_all-exit attempts left_demo 0 left refl exit_unsubscribed

-- Scores in hundredths, as far below zero as the number says; hostile replies only.
abbrev sour : Scores ℕ
sour = record {
  neutral = 0;
  blend = λ score x. x;
  score_of = λ intent. 150;
  below_throttle = λ score. ltb 50 score;
  below_pause = λ score. ltb 120 score;
}

evaluate_cohort-caps_example :
    let q = evaluate_cohort sour "acme" "c1" demo in
    (r : Option String) × (q.0 ≡ ok r)
    × Acted "c1" demo q.1 r
    × ((cap : ℕ) → (capped r cap ≤ cap) ⊎ ((cap ≡ 0) × (capped r cap ≡ 1)))
evaluate_cohort-caps_example = evaluate_cohort-caps sour "acme" "c1" demo

sour_pauses :
    (evaluate_score sour "acme" "c1" (150, 12) demo).1.counters cohort_month "c1" "2026-11"
    ≡ some (record { used = 1; cap = 0 })
unfolding evaluate_score escalate
sour_pauses = refl
