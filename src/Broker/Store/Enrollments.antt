-- ===== src/Broker/Store/Enrollments.antt =====
-- store.py: the enrollments, one pod for one target.
use Prim.Native.String.{compare}
use Prim.Native.Nat.{Ordering}
use eight_call.Prelude.{
  ℕ, ◌+◌, String, Bool, not, ◌&&◌, ◌||◌, Option, none, some, List, [], ◌∷◌, ◌==◌, nat_eq, is_some,
  find, update, count, append, if◌then◌else◌,
}
use eight_call.Broker.Result.{
  ok, err, Action, denied, unknown_target, target_not_approved, not_enrolled,
  enrollment_conflict_one_target_one_pod,
}
use eight_call.Broker.Store.{Store, Enrollment, Target, pod_key, enrolled_key, is_approved, is_set}
use eight_call.Broker.Store.Targets.{target}

-- `sorted(set(caps))`.
unfoldable pub insert_sorted : String → List String → List String
insert_sorted c [] = c ∷ []
insert_sorted c (d ∷ ds) = elim (compare c d) [
  | Ordering.lt ↦ c ∷ d ∷ ds
  | Ordering.eq ↦ d ∷ ds
  | Ordering.gt ↦ d ∷ insert_sorted c ds
]

unfoldable pub sorted_set : List String → List String
unfolding insert_sorted
sorted_set [] = []
sorted_set (c ∷ cs) = insert_sorted c (sorted_set cs)

unfoldable pub enrollment_by_pod : String → Store → Option Enrollment
enrollment_by_pod pod s = find pod_key pod s.enrollments

unfoldable pub enrollment_by_target : String → Store → Option Enrollment
enrollment_by_target id s = find enrolled_key id s.enrollments

abbrev is_actionable : Target → Bool
is_actionable r = is_approved r.state && is_set r.public_key

abbrev new_enrollment : String → String → List String → ℕ → Enrollment
new_enrollment pod id caps now = record {
  pod_name = pod;
  target_id = id;
  caps = caps;
  status = "enabled";
  revision = 1;
  created_ts = now;
}

-- The row is refused by the primary key `pod_name` and by UNIQUE on `target_id`.
unfoldable pub enroll : String → String → List String → ℕ → Action Store ℕ
unfolding target enrollment_by_pod enrollment_by_target sorted_set
enroll pod id caps now s = elim (target id s) [
  | none ↦ (err (denied unknown_target), s)
  | some row ↦
      if not (is_actionable row)
      then (err (denied target_not_approved), s)
      else if is_some (enrollment_by_pod pod s) || is_some (enrollment_by_target id s)
      then (err (denied enrollment_conflict_one_target_one_pod), s)
      else (
        ok 1,
        record s {
          enrollments = append s.enrollments (new_enrollment pod id (sorted_set caps) now);
        },
      )
]

abbrev revision_of : Option Enrollment → ℕ
revision_of none = 0
revision_of (some r) = r.revision

unfoldable pub set_enrollment_status : String → String → Action Store ℕ
unfolding enrollment_by_pod
set_enrollment_status pod status s =
    let s' : Store = record s {
      enrollments =
          update (λ r. r.pod_name == pod)
            (λ r. record r { status = status; revision = r.revision + 1 }) s.enrollments;
    } in
    if not (nat_eq (count (λ r. r.pod_name == pod) s.enrollments) 1)
    then (err (denied not_enrolled), s')
    else (ok (revision_of (enrollment_by_pod pod s')), s')
