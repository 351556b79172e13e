-- ===== src/Broker/Json.antt =====
-- The JSON values that plasma/broker/broker/canon.py encodes, and Python's dict over them.
use eight_call.Prelude.{
  String, ◌≡◌, refl, Bool, eq_refl, Option, none, some, ℤ, arith, eq_iff, ◌==◌, if◌then◌else◌,
}

mutual
  pub data Json : Type 0 where
    null : Json
    bool : Bool → Json
    num : ℤ → Json
    text : String → Json
    arr : Items → Json
    obj : Fields → Json

  pub data Items : Type 0 where
    nil : Items
    item : Json → Items → Items

  pub data Fields : Type 0 where
    end : Fields
    field : String → Json → Fields → Fields

-- `d.get(k)`.
unfoldable pub get : String → Fields → Option Json
get k end = none
get k (field j v d) = if j == k then some v else get k d

-- `d[k] = v`.
unfoldable pub put : String → Json → Fields → Fields
put k v end = field k v end
put k v (field j w d) = if j == k then field j v d else field j w (put k v d)

-- `d.pop(k)`.
unfoldable pub remove : String → Fields → Fields
remove k end = end
remove k (field j w d) = if j == k then d else field j w (remove k d)

pub get-put :
    (k j : String) (v : Json) (d : Fields)
    → get j (put k v d) ≡ (if k == j then some v else get j d)
unfolding get put
get-put k j v end = refl
get-put k j v (field i w d) = ground (arith, eq_iff i k, eq_iff i j, eq_iff k j, get-put k j v d)

-- A key that is set on a dict without it and removed again leaves the dict.
pub remove-put : (k : String) (v : Json) (d : Fields) → get k d ≡ none → remove k (put k v d) ≡ d
unfolding get put remove
remove-put k v end h = ground (arith, eq_refl k)
remove-put k v (field i w d) h = ground (arith, remove-put k v d)
