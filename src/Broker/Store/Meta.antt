-- ===== src/Broker/Store/Meta.antt =====
-- store.py: `get_meta`, `set_meta` and `accept_policy_version`.
use eight_call.Prelude.{
  ℕ, String, Bool, false, Option, none, some, ltb, find, upsert, if◌then◌else◌,
}
use eight_call.Broker.Result.{ok, err, Action, denied, policy_rollback}
use eight_call.Broker.Store.{Store, Entry}

abbrev pub entry_key : Entry → String
entry_key e = e.key

abbrev value_of : Option Entry → Option ℕ
value_of none = none
value_of (some e) = some e.value

unfoldable pub get_meta : String → Store → Option ℕ
get_meta key s = value_of (find entry_key key s.meta)

unfoldable pub set_meta : String → ℕ → Store → Store
set_meta key value s = record s {
  meta = upsert entry_key (record { key = key; value = value }) s.meta;
}

abbrev is_rollback : ℕ → Option ℕ → Bool
is_rollback version none = false
is_rollback version (some current) = ltb version current

-- Monotonic policy acceptance. A lower version is a rollback, and is denied.
unfoldable pub accept_policy_version : ℕ → Action Store Unit
unfolding get_meta set_meta
accept_policy_version version s =
    if is_rollback version (get_meta "policy_version" s)
    then (err (denied policy_rollback), s)
    else (ok tt, set_meta "policy_version" version s)
