-- ===== src/Broker/Gate/Reasons.antt =====
-- The reason strings of `Denied` (plasma/broker/broker/store.py and gate.py), as they are logged.
use eight_call.Prelude.{String}
use eight_call.Broker.Result.{Reason}

unfoldable pub reason_text : Reason → String
reason_text Reason.policy_rollback = "policy_rollback"
reason_text Reason.unknown_target = "unknown_target"
reason_text Reason.malformed_public_key = "malformed_public_key"
reason_text Reason.fingerprint_mismatch = "fingerprint_mismatch"
reason_text Reason.target_already_approved = "target_already_approved"
reason_text Reason.already_revoked = "already_revoked"
reason_text Reason.target_not_approved = "target_not_approved"
reason_text Reason.enrollment_conflict_one_target_one_pod = "enrollment_conflict_one_target_one_pod"
reason_text Reason.not_enrolled = "not_enrolled"
reason_text Reason.lease_held_by_other = "lease_held_by_other"
reason_text Reason.replay = "replay"
reason_text Reason.stale_fencing = "stale_fencing"
reason_text Reason.token_invalid_or_used = "token_invalid_or_used"
reason_text Reason.no_trusted_keys = "no_trusted_keys"
reason_text Reason.malformed_trusted_keys = "malformed_trusted_keys"
reason_text Reason.malformed_policy_envelope = "malformed_policy_envelope"
reason_text Reason.policy_signer_unknown = "policy_signer_unknown"
reason_text Reason.crypto_unavailable = "crypto_unavailable"
reason_text Reason.policy_signature_invalid = "policy_signature_invalid"
reason_text Reason.malformed_request = "malformed_request"
reason_text Reason.unknown_caller = "unknown_caller"
reason_text Reason.bad_signature = "bad_signature"
reason_text Reason.gate_key_unavailable = "gate_key_unavailable"
reason_text Reason.stale_request = "stale_request"
reason_text Reason.expired_request = "expired_request"
reason_text Reason.policy_digest_mismatch = "policy_digest_mismatch"
reason_text Reason.capability_refused = "capability_refused"
reason_text Reason.not_granted = "not_granted"
reason_text Reason.target_not_enrolled = "target_not_enrolled"
reason_text Reason.enrollment_disabled = "enrollment_disabled"
reason_text Reason.capability_not_granted_to_pod = "capability_not_granted_to_pod"
reason_text Reason.enrollment_revision_mismatch = "enrollment_revision_mismatch"
reason_text Reason.target_disabled = "target_disabled"
reason_text Reason.token_malformed = "token_malformed"
reason_text Reason.bad_token_signature = "bad_token_signature"
reason_text Reason.token_expired = "token_expired"
reason_text Reason.token_scope_mismatch = "token_scope_mismatch"
reason_text Reason.chain_verification_failed = "chain_verification_failed"
reason_text Reason.witness_rollback = "witness_rollback"
reason_text Reason.witness_unavailable = "witness_unavailable"
reason_text Reason.no_transport_endpoint = "no_transport_endpoint"
reason_text Reason.gate_transport_identity_unavailable = "gate_transport_identity_unavailable"
reason_text Reason.target_unreachable = "target_unreachable"
reason_text Reason.target_identity_mismatch = "target_identity_mismatch"
reason_text Reason.target_identity_unverifiable = "target_identity_unverifiable"
