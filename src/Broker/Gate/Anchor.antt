-- ===== src/Broker/Gate/Anchor.antt =====
-- gate.py: `checkpoint`, which writes the chain's head to a file and to a witness.
use eight_call.Prelude.{
  ℕ, ◌+◌, String, Bool, true, false, Option, none, some, ◌==◌, ltb, if◌then◌else◌,
}
use eight_call.Broker.Json.{Fields}
use eight_call.Broker.Result.{
  ok, err, Action, denied, chain_verification_failed, witness_rollback, witness_unavailable,
}
use eight_call.Broker.Store.{Store}
use eight_call.Broker.Store.Meta.{get_meta, set_meta}
use eight_call.Broker.Store.Decisions.{head}

-- The JSON of the checkpoint file.
pub record Anchor : Type 0 where
  pub seq : ℕ
  pub head : String
  pub ts : ℕ
  pub prev_head : Option String

-- The database and the file; an unreadable file is none.
pub record Anchored : Type 0 where
  pub store : Store
  pub file : Option Anchor

-- What the witness answers: there may be no URL, the exchange may fail, and the answer may have no
-- sequence number.
pub data Witness : Type 0 where
  no_url unavailable : Witness
  ack : Option ℕ → Witness

pub record Report : Type 0 where
  pub head : String
  pub seq : ℕ
  pub non_monotonic : Bool
  pub witness_error : Bool

abbrev or_zero : Option ℕ → ℕ
or_zero none = 0
or_zero (some n) = n

abbrev head_of : Option Anchor → Option String
head_of none = none
head_of (some a) = some a.head

abbrev is_head : String → Option Anchor → Bool
is_head h none = false
is_head h (some a) = a.head == h

abbrev is_behind : ℕ → Option ℕ → Bool
is_behind n none = false
is_behind n (some seen) = ltb n seen

-- The exchange with the witness. A sequence number that went back is a rollback.
unfoldable pub confirm : Bool → Witness → Report → Action Anchored Report
unfolding get_meta set_meta
confirm required no_url r a = if required then (err (denied witness_unavailable), a) else (ok r, a)
confirm required unavailable r a =
    if required
    then (err (denied witness_unavailable), a)
    else (ok (record r { witness_error = true }), a)
confirm required (ack none) r a = (ok r, a)
confirm required (ack (some n)) r a =
    if is_behind n (get_meta "witness_seq" a.store)
    then (err (denied witness_rollback), a)
    else (ok r, record a { store = set_meta "witness_seq" n a.store })

unfoldable pub checkpoint : (Fields → String) → Bool → Witness → ℕ → Action Anchored Report
unfolding head get_meta set_meta confirm
checkpoint digest required witness now a =
    let h = head digest a.store in
    if h == ""
    then (err (denied chain_verification_failed), a)
    else let seq = or_zero (get_meta "checkpoint_seq" a.store) + 1 in
      let entry : Anchor = record { seq = seq; head = h; ts = now; prev_head = head_of a.file } in
      let report : Report = record {
        head = h;
        seq = seq;
        non_monotonic = is_head h a.file;
        witness_error = false;
      } in
      confirm required witness report
        (record { store = set_meta "checkpoint_seq" seq a.store; file = some entry })
