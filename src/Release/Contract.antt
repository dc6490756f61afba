-- ===== src/Release/Contract.antt =====
-- A1-shared-contracts/src/ai_engineering_contracts/models.py: what the validation of a GateResult
-- asks of the decision. The other fields of the result are not the policy's.
pub mod Obligations
pub mod Contradictions
pub mod Validity
use blindspot_remediation.Prelude.{Bool, true, false, not, ◌&&◌, ◌||◌, String, List, any, is_empty}
use blindspot_remediation.Release.Models.{
  GateDecision, pass, fail, human_review_required, more_evidence_required, ControlResult,
}
use blindspot_remediation.Release.Engine.{is_failed, is_dominant, is_mandatory}

abbrev pub has_dominant_failure : List ControlResult → Bool
has_dominant_failure controls = any (λ control. is_dominant control && is_failed control) controls

abbrev pub has_mandatory_failure : List ControlResult → Bool
has_mandatory_failure controls = any (λ control. is_mandatory control && is_failed control) controls

-- The part of `GateResult.validate_gate_outcome` from the dominant failures on: whether it returns.
unfoldable pub validate_gate_outcome :
    GateDecision → List ControlResult → List String → List String → Bool
validate_gate_outcome fail controls unmet contradictions = true
validate_gate_outcome pass controls unmet contradictions =
    not (has_dominant_failure controls)
    && (not (has_mandatory_failure controls) && (is_empty unmet && is_empty contradictions))
validate_gate_outcome more_evidence_required controls unmet contradictions =
    not (has_dominant_failure controls) && (not (is_empty unmet) || not (is_empty contradictions))
validate_gate_outcome human_review_required controls unmet contradictions =
    not (has_dominant_failure controls)
