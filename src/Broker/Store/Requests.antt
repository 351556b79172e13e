-- ===== src/Broker/Store/Requests.antt =====
-- store.py: the requests that were seen, each digest and each nonce once.
use eight_call.Prelude.{ℕ, String, Bool, ◌||◌, ◌==◌, is_some, find, update, append, if◌then◌else◌}
use eight_call.Broker.Result.{ok, err, Action, denied, replay}
use eight_call.Broker.Store.{Store, RequestRow, digest_key, nonce_key}

-- A digest or a nonce that is in the table.
unfoldable pub is_recorded : String → String → Store → Bool
is_recorded req_digest nonce s =
    is_some (find digest_key req_digest s.requests) || is_some (find nonce_key nonce s.requests)

unfoldable pub record_request : String → String → String → String → String → ℕ → Action Store Unit
unfolding is_recorded
record_request req_digest nonce caller action target_id now s =
    if is_recorded req_digest nonce s
    then (err (denied replay), s)
    else let row : RequestRow = record {
      req_digest = req_digest;
      nonce = nonce;
      caller = caller;
      action = action;
      target_id = target_id;
      issued_ts = now;
      outcome = "pending";
      reason = "";
      decision_id = "";
    } in
      (ok tt, record s { requests = append s.requests row })

unfoldable pub settle_request : String → String → String → String → Store → Store
settle_request req_digest outcome reason decision_id s = record s {
  requests =
      update (λ r. r.req_digest == req_digest)
        (λ r. record r { outcome = outcome; reason = reason; decision_id = decision_id })
        s.requests;
}
