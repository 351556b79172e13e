-- ===== src/Broker/Store/Tokens.antt =====
-- store.py: single-use tokens, and the transaction that consumes one and records its run.
use eight_call.Prelude.{
  ℕ, String, Bool, true, false, not, ◌&&◌, Option, none, some, ◌==◌, leb, nat_eq, is_some, find,
  update, count, append, if◌then◌else◌,
}
use eight_call.Broker.Result.{
  ok, err, Action, denied, integrity, stale_fencing, token_invalid_or_used,
}
use eight_call.Broker.Store.{Store, TokenRow, Run, Lease, running, token_key, run_key}
use eight_call.Broker.Store.Leases.{lease_of}

-- `token_digest` is the primary key.
unfoldable pub mint_token : String → String → String → String → ℕ → ℕ → Action Store Unit
mint_token token_digest decision_id target_id action fencing expires_ts s =
    if is_some (find token_key token_digest s.tokens)
    then (err integrity, s)
    else let row : TokenRow = record {
      token_digest = token_digest;
      decision_id = decision_id;
      target_id = target_id;
      action = action;
      fencing = fencing;
      expires_ts = expires_ts;
      used = false;
    } in
      (ok tt, record s { tokens = append s.tokens row })

abbrev pub has_fence : ℕ → Option Lease → Bool
has_fence fencing none = false
has_fence fencing (some r) = nat_eq r.fencing fencing

-- The WHERE of the UPDATE, besides the key.
abbrev pub is_claimable : String → String → ℕ → ℕ → TokenRow → Bool
is_claimable target_id action fencing now r =
    not r.used
    && leb now r.expires_ts
    && r.target_id == target_id
    && r.action == action
    && nat_eq r.fencing fencing

abbrev pub new_run : String → String → String → ℕ → String → ℕ → Run
new_run run_id target_id action fencing pod now = record {
  run_id = run_id;
  target_id = target_id;
  action = action;
  fencing = fencing;
  pod = pod;
  state = running;
  started_ts = now;
  ended_ts = none;
  result_digest = "";
}

-- Consume the token and record the run in one transaction, with the fence checked in it.
unfoldable pub claim_run : String → String → String → ℕ → String → String → ℕ → Action Store Unit
unfolding lease_of
claim_run token_digest target_id action fencing run_id pod now s =
    let matching : TokenRow → Bool =
      λ r. r.token_digest == token_digest && is_claimable target_id action fencing now r in
    if not (has_fence fencing (lease_of target_id s))
    then (err (denied stale_fencing), s)
    else if not (nat_eq (count matching s.tokens) 1)
    then (err (denied token_invalid_or_used), s)
    else if is_some (find run_key run_id s.runs)
    then (err integrity, s)
    else (
      ok tt,
      record s {
        tokens = update matching (λ r. record r { used = true }) s.tokens;
        runs = append s.runs (new_run run_id target_id action fencing pod now);
      },
    )
