-- ===== src/Examples/Proposed.antt =====
-- Proposals at the demo database.
use open_reachout.Base.{
  ◌<◌, ◌≤◌, ◌+◌, ◌-◌, ◌≡◌, ◌≢◌, inl, refl, String, true, none, some, ok, arith, insert, empty_table,
  starts_with, ==_iff, string_eq,
}
use open_reachout.Base.Int.{pos}
use open_reachout.Db.{Db, Counter, Proposal, ProposalPayload, waiting, cohort_month}
use open_reachout.Proposals.{decline, propose, approve}
use open_reachout.Proposals.Memory.{decline-propose}
use open_reachout.Proposals.Authority.{IsApproved, approve-IsApproved}
use open_reachout.Proposals.Caps.{approve-caps}
use open_reachout.Examples.Demo.{demo}

abbrev two_units : ProposalPayload
two_units = record {
  action = none;
  cohort = none;
  from_cohort = some "c1";
  to_cohort = some "c2";
  amount = some (pos 2);
}

abbrev shift_two : Proposal
shift_two = record {
  tenant = "acme";
  kind = "budget_shift";
  summary = "Shift 2 from c1 to c2";
  payload = two_units;
  status = waiting;
  dedupe_key = some "shift:c1:c2";
  created_at = 990000;
  resolved_at = none;
  resolved_by = none;
}

abbrev with_proposal : Db
with_proposal = record demo { proposals = insert shift_two empty_table }

abbrev after_decline : Db
after_decline = (decline 0 "operator:kim" with_proposal).1

was_declined : decline 0 "operator:kim" with_proposal ≡ (ok true, after_decline)
unfolding decline starts_with
was_declined = refl

is_kept : 0 < after_decline.proposals.next
unfolding decline starts_with
is_kept = omega arith

abbrev next_week : Db
next_week = record after_decline { now = 1600000 }

decline-propose_example :
    propose "acme" "budget_shift" "Again" two_units (some "shift:c1:c2") next_week
    ≡ (ok none, next_week)
decline-propose_example =
    decline-propose 0 "operator:kim" "shift:c1:c2" "budget_shift" "Again" two_units shift_two
      with_proposal after_decline next_week refl refl refl was_declined refl is_kept (omega arith)

abbrev after_approval : Db
after_approval = (approve 0 "system:autonomy" true with_proposal).1

was_approved : approve 0 "system:autonomy" true with_proposal ≡ (ok true, after_approval)
unfolding approve
was_approved = refl

approve-IsApproved_example : IsApproved 0 "system:autonomy" true with_proposal after_approval
approve-IsApproved_example =
    approve-IsApproved 0 "system:autonomy" true with_proposal after_approval was_approved

abbrev unit_cap : Counter
unit_cap = record { used = 1; cap = 5 }

c1_not_c2 : ◌≢◌ {A = String} "c1" "c2"
c1_not_c2 e = cc ((==_iff ⦃e = string_eq⦄ "c1" "c2").1 e)

approve-caps_example :
    (x : Counter) × (y : Counter) × (after_approval.counters cohort_month "c1" with_proposal.month
      ≡ some x)
    × (after_approval.counters cohort_month "c2" with_proposal.month ≡ some y)
    × (x.used ≡ unit_cap.used)
    × (y.used ≡ unit_cap.used)
    × (x.cap ≡ unit_cap.cap - 2)
    × (y.cap ≡ unit_cap.cap + 2)
    × (2 ≤ unit_cap.cap → x.cap + y.cap ≡ unit_cap.cap + unit_cap.cap)
    × (unit_cap.cap < 2 → x.cap + y.cap ≡ 2 + unit_cap.cap)
approve-caps_example =
    approve-caps 0 "system:autonomy" true shift_two 2 "c1" "c2" unit_cap unit_cap with_proposal
      after_approval refl
      (record { shifts = inl refl; amount = refl; from_cohort = refl; to_cohort = refl }) c1_not_c2
      refl refl was_approved
