-- ===== src/Broker/Grant.antt =====
-- plasma/broker/broker/grant.py: the object that lets one action run once. `sealed` says that the
-- seal of the module is in the object.
use eight_call.Prelude.{ℕ, String, Bool, true, false, not, ◌==◌, if◌then◌else◌}
use eight_call.Broker.Json.{Fields}
use eight_call.Broker.Result.{Result, ok, err, permission}

pub record Grant : Type 0 where
  pub target_id : String
  pub action : String
  pub fencing : ℕ
  pub params : Fields
  pub run_id : String
  pub sealed : Bool
  pub used : Bool

unfoldable pub new : Bool → String → String → ℕ → Fields → String → Result Grant
new seal target_id action fencing params run_id =
    if not seal
    then err (permission "execution grants are minted only by the gate")
    else ok (record {
      target_id = target_id;
      action = action;
      fencing = fencing;
      params = params;
      run_id = run_id;
      sealed = seal;
      used = false;
    })

unfoldable pub check : String → Grant → Result (Unit {0})
check action g =
    if not g.sealed
    then err (permission "invalid execution grant")
    else if g.used
    then err (permission "execution grant already consumed")
    else if not (g.action == action)
    then err (permission "execution grant scope mismatch")
    else ok tt

unfoldable pub consume : Grant → Result (Unit {0}) × Grant
consume g =
    if g.used
    then (err (permission "execution grant already consumed"), g)
    else (ok tt, record g { used = true })

unfoldable pub mint : String → String → ℕ → Fields → String → Result Grant
unfolding new
mint = new true
