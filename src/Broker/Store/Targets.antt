-- ===== src/Broker/Store/Targets.antt =====
-- store.py: the targets, from discovery to approval and revocation. `revoke_target` stands with the
-- decisions, since it is audited.
use eight_call.Prelude.{
  ℕ, ◌+◌, String, Bool, false, not, ◌&&◌, Option, none, some, ◌==◌, nat_eq, find, update, count,
  append, if◌then◌else◌,
}
use eight_call.Broker.Result.{
  ok, err, Action, denied, unknown_target, malformed_public_key, fingerprint_mismatch,
  target_already_approved,
}
use eight_call.Broker.Store.{Store, Target, candidate, approved, target_key, is_approved}

unfoldable pub target : String → Store → Option Target
target id s = find target_key id s.targets

abbrev new_target : String → String → String → Option String → ℕ → Target
new_target id address label public_key now = record {
  target_id = id;
  label = label;
  address = address;
  status = "enabled";
  created_ts = now;
  identity_algorithm = "ed25519";
  public_key = public_key;
  key_fingerprint = none;
  state = candidate;
  approval_digest = "";
  endpoint_revision = 1;
  approved_ts = none;
  transport_port = none;
}

-- The UPDATE of a target that is there; the revision moves with the address.
abbrev readdress : String → String → Target → Target → Target
readdress address label current r = record r {
  address = address;
  label = label;
  endpoint_revision = r.endpoint_revision + (if current.address == address then 0 else 1);
}

-- Discovery: a new target is a candidate, and a known one changes its address and label only.
unfoldable pub add_target : String → String → String → Option String → ℕ → Store → Store
unfolding target
add_target id address label public_key now s = elim (target id s) [
  | none ↦ record s { targets = append s.targets (new_target id address label public_key now) }
  | some current ↦ record s {
    targets = update (λ r. r.target_id == id) (readdress address label current) s.targets;
  }
]

abbrev is_same : Option String → String → Bool
is_same none x = false
is_same (some y) x = y == x

abbrev pin : String → String → String → ℕ → Target → Target
pin public_key fingerprint approval now r = record r {
  public_key = some public_key;
  key_fingerprint = some fingerprint;
  identity_algorithm = "ed25519";
  state = approved;
  approval_digest = approval;
  approved_ts = some now;
}

-- Out-of-band approval. `actual` is `sha256_hex(bytes.fromhex(public_key))`, `none` where the text
-- is not hexadecimal.
unfoldable pub approve_target :
    (String → Option String) → String → String → String → String → ℕ → Action Store Unit
unfolding target
approve_target actual id public_key fingerprint approval now s = elim (target id s) [
  | none ↦ (err (denied unknown_target), s)
  | some row ↦ elim (actual public_key) [
    | none ↦ (err (denied malformed_public_key), s)
    | some computed ↦
        if not (computed == fingerprint)
        then (err (denied fingerprint_mismatch), s)
        else if is_approved row.state && not (is_same row.key_fingerprint fingerprint)
        then (err (denied target_already_approved), s)
        else (
          ok tt,
          record s {
            targets =
                update (λ r. r.target_id == id) (pin public_key fingerprint approval now) s.targets;
          },
        )
  ]
]

abbrev revision_of : Option Target → ℕ
revision_of none = 0
revision_of (some r) = r.endpoint_revision

-- An UPDATE of one target's routing metadata, by a change that moves the endpoint's revision.
abbrev reroute : String → (Target → Target) → Action Store ℕ
reroute id change s =
    let s' : Store = record s { targets = update (λ r. r.target_id == id) change s.targets } in
    if not (nat_eq (count (λ r. r.target_id == id) s.targets) 1)
    then (err (denied unknown_target), s')
    else (ok (revision_of (target id s')), s')

unfoldable pub set_target_address : String → String → Action Store ℕ
unfolding target
set_target_address id address =
    reroute id (λ r. record r { address = address; endpoint_revision = r.endpoint_revision + 1 })

unfoldable pub set_target_endpoint : String → ℕ → Action Store ℕ
unfolding target
set_target_endpoint id port =
    reroute id
      (λ r. record r { transport_port = some port; endpoint_revision = r.endpoint_revision + 1 })
