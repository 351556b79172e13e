-- ===== src/Broker/Gate/Records.antt =====
-- gate.py: what `authorize` returns and logs. Besides the reason and the decision's identifier the
-- program hands back details for the reader, which are logged only in the schema's refusal here.
use eight_call.Prelude.{
  ℕ, String, Bool, false, List, [], ◌∷◌, Option, none, some, pos, contains, if◌then◌else◌,
}
use eight_call.Broker.Json
use eight_call.Broker.Json.{Json, Fields, Items, bool, num, text, arr, obj, nil, item, end, field}
use eight_call.Broker.Result.{ok, Reason, Action, pure, ◌>>=◌, ◌>>◌}
use eight_call.Broker.Store.{Store}
use eight_call.Broker.Store.Enrollments.{sorted_set}
use eight_call.Broker.Store.Requests.{record_request, settle_request}
use eight_call.Broker.Store.Decisions.{append_decision}
use eight_call.Broker.Gate.{Request, Token, Host, request_keys, difference}
use eight_call.Broker.Gate.Reasons.{reason_text}

-- The readings of `time.time()` in one call.
pub record Times : Type 0 where
  pub checked : ℕ
  pub recorded : ℕ
  pub leased : ℕ
  pub stamped : ℕ

pub record Allowed : Type 0 where
  pub decision_id : String
  pub token : Token
  pub fencing : ℕ
  pub expires_ts : ℕ
  pub target_id : String
  pub action : String
  pub params : Fields
  pub lease_reused : Bool

-- The dict that `authorize` returns.
pub data Verdict : Type 0 where
  deny : Reason → String → Verdict
  allow : Allowed → Verdict

-- The dict that is signed and digested.
unfoldable pub request_fields : Request → Fields
request_fields r = field "caller" (text r.caller) (
    field "action" (text r.action) (
      field "target_id" (text r.target_id) (
        field "params" (obj r.params) (
          field "policy_digest" (text r.policy_digest) (
            field "enrollment_revision" (num (pos r.enrollment_revision)) (
              field "nonce" (text r.nonce) (
                field "issued_at" (num (pos r.issued_at))
                  (field "expiry" (num (pos r.expiry)) end))))))))

-- `request.get(key, default)`.
abbrev given : Request → String → Json → Json → Json
given r key value default = if contains key r.keys then value else default

abbrev items : List String → Items
items [] = nil
items (t ∷ ts) = item (text t) (items ts)

-- The record of a refusal, before `update(extra)`.
unfoldable pub refusal : Reason → Request → ℕ → Fields
unfolding reason_text
refusal reason r now = field "allow" (bool false) (
    field "reason" (text (reason_text reason)) (
      field "caller" (given r "caller" (text r.caller) (text "")) (
        field "action" (given r "action" (text r.action) (text "")) (
          field "target_id" (given r "target_id" (text r.target_id) (text "")) (
            field "params" (given r "params" (obj r.params) (obj end)) (
              field "policy_digest" (given r "policy_digest" (text r.policy_digest) (text "")) (
                field "enrollment_revision"
                  (given r "enrollment_revision" (num (pos r.enrollment_revision)) (num (pos 0)))
                  (field "nonce" (given r "nonce" (text r.nonce) (text ""))
                    (field "ts" (num (pos now)) end)))))))))

abbrev pub with_detail : Option String → Fields → Fields
with_detail none body = body
with_detail (some detail) body = Json.put "detail" (text detail) body

abbrev pub settle : Host → Request → String → String → String → Action Store (Unit {0})
settle c r outcome reason decision_id s =
    (ok tt, settle_request (c.digest (request_fields r)) outcome reason decision_id s)

module _ (c : Host) (now : Times) (r : Request) where
  -- `_decision(store, False, reason, request)`.
  unfoldable pub refuse : Reason → Action Store Verdict
  refuse reason = do
    decision_id ← append_decision c.digest (refusal reason r now.stamped) now.stamped
    pure (deny reason decision_id)

  -- The schema's refusal, with the keys that are too many and too few.
  unfoldable pub refuse_schema : Action Store Verdict
  refuse_schema = do
    decision_id ←
        append_decision c.digest
          (Json.put "missing" (arr (items (sorted_set (difference request_keys r.keys)))) (
            Json.put "extra" (arr (items (sorted_set (difference r.keys request_keys))))
              (refusal Reason.malformed_request r now.stamped)))
          now.stamped
    pure (deny Reason.malformed_request decision_id)

  unfoldable pub record_nonce : Action Store Unit
  record_nonce =
      record_request (c.digest (request_fields r)) r.nonce r.caller r.action r.target_id
        now.recorded

  -- `deny(reason)`, with a `detail` where one is given: the request was recorded before.
  unfoldable pub deny_settled : Reason → Option String → Action Store Verdict
  deny_settled reason detail = do
    decision_id ←
        append_decision c.digest (with_detail detail (refusal reason r now.stamped)) now.stamped
    settle c r "deny" (reason_text reason) decision_id
    pure (deny reason decision_id)

  -- A refusal that records the request first; a replay is raised from here, with no audit record.
  unfoldable pub reject : Reason → Action Store Verdict
  reject reason = record_nonce >> deny_settled reason none
