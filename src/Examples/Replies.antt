-- ===== src/Examples/Replies.antt =====
-- Events, replies, tasks and missed bookings at the demo database.
use Prim.Native.Char.{Char, code}
use open_reachout.Base.{
  ==_refl, ℕ_eq, ℕ, row_is, ◌<◌, ◌+◌, ◌*◌, ◌≡◌, refl, true, false, none, some, [], ◌∷◌, ok, arith,
  insert, empty_table, starts_with, any_char, strip_right, strip_left, behind, before, first,
  append, ltb,
}
use open_reachout.States.{allowed}
use open_reachout.Db.{Db, HumanTask, pending}
use open_reachout.Canonical.{canonicalize}
use open_reachout.Queue.{enqueue, taken}
use open_reachout.Suppression.{suppress, upsert}
use open_reachout.Learning.{record_guardrail, guardrail_breaches}
use open_reachout.PgStore.{may_contact}
use open_reachout.Events.{ProviderEvent, bounce, ingest_events}
use open_reachout.Events.Once.{ingest_events_again}
use open_reachout.HumanTasks.{resolve, stale, expire}
use open_reachout.HumanTasks.Expiry.{expire_lem}
use open_reachout.HumanTasks.Contact.{resolve-may_contact}
use open_reachout.NoShow.{has_no_show, process_no_show}
use open_reachout.NoShow.Once.{process_no_show_twice}
use open_reachout.Replies.{
  answer_faq, question, Output, RouteDecision, Router, route, unsubscribe_re, opted_out,
}
use open_reachout.Replies.OptOut.{route-unsubscribe}
use open_reachout.Pattern.{search}
use open_reachout.Envelope.{injection_suspects}
use open_reachout.Replies.Outbound.{IsAnswerable, route-IsAnswerable}
use open_reachout.Examples.Demo.{plain, ann, demo}

abbrev bounced_event : ProviderEvent
bounced_event = record { provider_event_id = "e1"; kind = bounce; touch_id = some 0; body = "" }

abbrev after_events : Db
after_events = (ingest_events plain (bounced_event ∷ bounced_event ∷ []) demo).1

events_ingested :
    ingest_events plain (bounced_event ∷ bounced_event ∷ []) demo ≡ (ok 1, after_events)
unfolding ingest_events suppress canonicalize any_char strip_right strip_left behind before first
    append enqueue taken upsert record_guardrail guardrail_breaches allowed
events_ingested = refl

ingest_events_again_example :
    ingest_events plain (bounced_event ∷ bounced_event ∷ []) after_events ≡ (ok 0, after_events)
ingest_events_again_example =
    ingest_events_again plain (bounced_event ∷ bounced_event ∷ []) 1 demo after_events
      events_ingested

abbrev visit : HumanTask
visit = record {
  tenant = "acme";
  prospect_id = 0;
  touch_id = 0;
  instruction = "Walk in on Thursday";
  status = pending;
  created_at = 990000;
  resolved_by = none;
}

abbrev with_task : Db
with_task = record demo { human_tasks = insert visit empty_table }

abbrev after_visit : Db
after_visit = (resolve 0 "operator:kim" true with_task).1

visited : resolve 0 "operator:kim" true with_task ≡ (ok true, after_visit)
unfolding resolve starts_with
visited = refl

resolve-may_contact_example : may_contact after_visit.now 90 8 (after_visit.entities.rows 0) ≡ false
resolve-may_contact_example =
    resolve-may_contact 0 "operator:kim" visit ann with_task after_visit 90 8 refl refl
      (omega arith) visited

process_no_show_twice_example :
    let db' = (process_no_show (λ now m. now + m * 2592000) 0 3 demo).1 in
    (has_no_show 0 db'.audit ≡ true)
    × ((process_no_show (λ now m. now + m * 2592000) 0 3 db').1.jobs ≡ db'.jobs)
process_no_show_twice_example = process_no_show_twice (λ now m. now + m * 2592000) 0 3 3 demo

-- Confidences in hundredths; every reply is a question.
abbrev asked : Output ℕ
asked = record {
  intent = question;
  confidence = 90;
  objection_class = none;
  injection_suspected = false;
}

abbrev demo_router : Router ℕ
demo_router = record {
  python = plain;
  classify = λ body. ok asked;
  below_floor = λ c. ltb c 70;
  certain = 100;
}

abbrev answer : RouteDecision ℕ
answer = record {
  action = answer_faq;
  intent = question;
  confidence = 90;
  reason = "classified";
  deterministic = false;
  objection_class = none;
}

routed : route demo_router "What does it cost?" 0 (answer_faq ∷ []) ≡ ok answer
unfolding route search unsubscribe_re injection_suspects
routed = refl

route-IsAnswerable_example :
    IsAnswerable demo_router "What does it cost?" 0 (answer_faq ∷ []) answer
route-IsAnswerable_example =
    route-IsAnswerable demo_router "What does it cost?" 0 (answer_faq ∷ []) answer routed refl

abbrev old_visit : Db
old_visit = record demo { now = 9000000; human_tasks = insert visit empty_table }

expire_lem_example :
    ((j : ℕ)
      → j < 1
      → row_is (stale 9000000 14) ((expire 14 old_visit).1.human_tasks.rows j) ≡ false)
    × ((expire 14 old_visit).1.entities ≡ old_visit.entities)
expire_lem_example = expire_lem 14 old_visit

every_letter : (d : Char) → plain.same_letter d d ≡ true
every_letter d = ==_refl (code d)

route-unsubscribe_example :
    route demo_router (append "please " (append "unsubscribe" " me")) 0 (answer_faq ∷ [])
    ≡ ok (opted_out demo_router)
route-unsubscribe_example =
    route-unsubscribe demo_router "please " " me" 0 (answer_faq ∷ []) every_letter refl refl
