-- ===== src/Lib.antt =====
-- open-reachout: an outreach engine that finds prospects, drafts messages to them and sends them under
-- invariants: no send without a claim (I-1), halts bind until a human resumes (I-2), suppressed and
-- forgotten people are never contacted (I-3), contact frequency (I-7), volume budgets (I-8) and content
-- bound to what was validated (I-9). Its parts work on one Postgres database. Workers lease jobs from a
-- queue and run one handler for each queue in a transaction; the deliver handler claims a drafted touch
-- through the gatekeeper, hands it to the sending provider and plans the next step.
--
-- Files, and the code that each models:
--   Base          shared tests, tables with handed-out ids, results that raise, texts
--   States        src/open_reachout/core/states.py; States.Reach has what the table allows in many steps
--   Db            src/open_reachout/db/schema.sql: the tables as one record `Db`
--   Queue         src/open_reachout/core/queue.py: enqueue, lease, complete, fail, reap_expired
--   Worker        src/open_reachout/core/worker.py: run_once, drain and _handle (`handle`)
--   Gatekeeper    src/open_reachout/core/gatekeeper.py: `claim` over the interface `GateStore`, one
--                 definition for each gate; Gatekeeper.Passed says what it is to pass them all
--   Canonical     src/open_reachout/core/canonical.py
--   Control       src/open_reachout/core/control.py: halt, resume, halted_scopes
--   Suppression   src/open_reachout/core/suppression.py
--   PgStore       src/open_reachout/core/store_pg.py: `pg_store` is PgGateStore; `consume` is
--                 try_consume_budget, `pick` is pick_mailbox, `sendable` is confidence_sendable
--   Lifecycle     src/open_reachout/core/lifecycle.py: transition
--   Drafts        src/open_reachout/core/sendpath.py: queue_draft, approve_pending, reject_pending
--   Deliver       src/open_reachout/core/sendpath.py: the deliver handler (`deliver`; `deliver_touch`
--                 for the touch of its payload), release_sequence, _plan_next_step
--   Reissue       reissue of core/gatekeeper.py over load_claimed of core/store_pg.py
--   Learning      src/open_reachout/stats/persistence.py and guardrail_breaches of stats/bandit.py
--   Escalations   src/open_reachout/core/escalations.py: escalate, resolve
--   HumanTasks    src/open_reachout/core/human_tasks.py: create_for_step, resolve, expire
--   NoShow        src/open_reachout/core/noshow.py: process_no_show
--   Events        src/open_reachout/core/events.py: ingest_events and the handling of each kind (`act`)
--   Replies       src/open_reachout/core/replies.py: route, with UNSUBSCRIBE_RE
--   Pattern       regular expressions as Python's `re` matches them: Pattern.Notation is the notation,
--                 Pattern.Spans and Pattern.Search say what the matcher finds
--   Validators    src/open_reachout/core/compliance: validators.py, phi.py and regimes.py
--                 (Validators.Patterns has the patterns, `validate` the checks)
--   Envelope      src/open_reachout/security/envelope.py: wrap, injection_suspects
--   Variables     src/open_reachout/core/variables.py: prompt slots, lookup, validate_prompt, resolve
--   Referrals     src/open_reachout/core/referrals.py: process_positive_event, with the look-up of the
--                 prospect in src/open_reachout/core/prospecting.py
--   Proposals     src/open_reachout/core/proposals.py: propose, decline, approve, auto_review
--   Forget        src/open_reachout/core/forget.py: forget, by its steps
--   Entities      src/open_reachout/core/entity.py: deterministic_keys, resolve_entity
--   Sentiment     src/open_reachout/stats/sentiment.py: cohort_sentiment, evaluate_cohort,
--                 maybe_evaluate
--   Config        src/open_reachout/core/config.py: the checks across fields; Config.Sequences joins
--                 them with the planning of the next step
--   Attribution   src/open_reachout/core/attribution.py: token_for, verify, tokenize_links,
--                 record_conversion
--   Examples      a small deployment, and the theorems applied to it
--
-- State is passed explicitly: an operation takes the database and returns a result, or an exception, and
-- the database with what was written before an exception; `transaction` of Worker is what discards it.
-- The clock is a field of the database and stands still within one operation. `outbox` is the list of
-- the messages that the provider has accepted, with their subject and body, which no rollback takes back. uuid and bigint keys are
-- numbers below the `next` of a table; timestamps are seconds; subtraction stops at zero where SQL
-- writes GREATEST(.., 0). A loop over a query's rows is a recursion over the ids below `next`, and the
-- `while` of drain one over the number of jobs it may still process, so no fuel is needed.
--
-- A regular expression is matched by listing the ends of its matches in the order of backtracking; a
-- starred part has as many rounds as characters are left, which is enough, since a round that consumes
-- nothing adds no end. findall and sub have one round more than the text has characters.
--
-- Parameters: the provider, the job handlers, which texts Postgres takes where the worker writes those
-- of an exception, the contexts and sequences of the tenants, the registered regimes, the link tokens
-- of queue_draft, the floats of the sentiment scores, uuid and hmac, the model's classification of a
-- reply, the composer of a referral's text, calendar months, and of Python str.lower, str.isdigit, white space, the idna codec, SHA-256, and for
-- `re` what \w and \d match and which characters are the same letter under IGNORECASE. The gatekeeper
-- is generic in its two checks; `checks_of` of Validators gives those of the program.
--
-- Not modelled: row locks and concurrent transactions (operations run one after the other), run_forever,
-- the text of details and log lines, the claim registry's version in decision_traces, the agents, the
-- adapters, the API and the command line, and the components that PROJECT.json lists as not modelled.
pub mod Base
pub mod States
pub mod Db
pub mod Queue
pub mod Worker
pub mod Gatekeeper
pub mod Canonical
pub mod Control
pub mod Suppression
pub mod PgStore
pub mod Lifecycle
pub mod Drafts
pub mod Learning
pub mod Deliver
pub mod Reissue
pub mod Escalations
pub mod HumanTasks
pub mod NoShow
pub mod Events
pub mod Replies
pub mod Proposals
pub mod Forget
pub mod Attribution
pub mod Entities
pub mod Sentiment
pub mod Config
pub mod Pattern
pub mod Envelope
pub mod Validators
pub mod Variables
pub mod Referrals
mod Examples
