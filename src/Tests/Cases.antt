-- ===== src/Tests/Cases.antt =====
-- Witnesses for the ways of a case through graph/builder.py.
use kyc_agent_nordvik.Prelude.{◌≤◌, ◌≡◌, ◌≢◌, refl, some}
use kyc_agent_nordvik.Schemas.Decisions.{Decision, escalate, human}
use kyc_agent_nordvik.Graph.Builder.Approval.{
  IsCleared, auto_approval-IsCleared, ended-decision, ended-escalated,
}
use kyc_agent_nordvik.Graph.Builder.Limit.{supersteps, submitted-supersteps}
use kyc_agent_nordvik.Samples.{context, outage, package_of, anna}
use kyc_agent_nordvik.Tests.Runs.{
  approved, approved_run, approved-ended, approved-decision, approved_decision, reviewed_case,
  reviewed_run, reviewed-ended, reviewed-escalated,
}

auto_approval-IsCleared_example : IsCleared context approved.state
auto_approval-IsCleared_example =
    auto_approval-IsCleared context "case-1" (package_of anna) tt approved approved_decision
      approved_run approved-decision refl refl

ended-decision_example :
    (d : Decision) × (approved.state.decision ≡ some d) × (d.outcome ≢ escalate)
ended-decision_example =
    ended-decision context "case-1" (package_of anna) tt approved approved_run approved-ended

ended-escalated_example :
    (d : Decision) × (reviewed_case.state.decision ≡ some d) × (d.decided_by ≡ human)
ended-escalated_example =
    ended-escalated outage "case-1" (package_of anna) tt reviewed_case reviewed_run reviewed-ended
      reviewed-escalated

submitted-supersteps_example : supersteps context approved_run ≤ 9
submitted-supersteps_example =
    submitted-supersteps context "case-1" (package_of anna) tt approved approved_run
