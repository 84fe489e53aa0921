-- ===== src/Examples/Core.antt =====
-- View changes and quorums at concrete inputs.
use go_hpc_rbft.Base.{
  ℕ, ◌+◌, ◌≤◌, ◌<◌, ◌≡◌, refl, ◌⊎◌, inl, Bool, true, false, List, [], ◌∷◌, arith, In, ltb, leb,
  ◌==◌, eq_iff,
}
use go_hpc_rbft.Base.Maps.{delete_if, insert, lookup}
use go_hpc_rbft.Messages.{VcPq, VcBasis}
use go_hpc_rbft.Quorum.{
  common_case_quorum, one_correct_quorum, all_correct_replicas_quorum, fault_bound,
}
use go_hpc_rbft.Quorum.Intersection.{
  one_correct_quorum_correct, common_case_quorum-intersect, common_case_quorum-reachable,
}
use go_hpc_rbft.ViewChange.Assign.{
  no_conflict, supporters, vouches, vouchers, has_entry, null_votes, select_entry, select_request,
  assign_loop, number_from, finish, chosen, assign_sequence_numbers,
}
use go_hpc_rbft.ViewChange.Assign.Selection.{Selected}
use go_hpc_rbft.ViewChange.Assign.Numbering.{Explained, assign_sequence_numbers_lem}
use go_hpc_rbft.ViewChange.Assign.Safety.{prepared_request_survives, assigned_request_was_proposed}

-- Four validators, of which 4 is faulty.
abbrev four : List ℕ
four = 1 ∷ 2 ∷ 3 ∷ 4 ∷ []

abbrev faulty_one : ℕ → Bool
faulty_one a = a == 4

abbrev first_three : ℕ → Bool
first_three a = leb a 3

abbrev last_three : ℕ → Bool
last_three a = ltb 1 a

abbrev request : VcPq
request = record { sequence_number = 1; batch_digest = "a"; view = 0 }

abbrev from_replica : ℕ → VcBasis
from_replica i = record {
  replica_id = i;
  view = 1;
  h = 0;
  pset = request ∷ [];
  qset = request ∷ [];
  cset = [];
}

abbrev three_messages : List VcBasis
three_messages = from_replica 1 ∷ from_replica 2 ∷ from_replica 3 ∷ []

new_view : assign_sequence_numbers 3 4 1 2 three_messages 0 ≡ chosen (request ∷ [])
unfolding assign_sequence_numbers finish number_from common_case_quorum one_correct_quorum
    assign_loop select_request select_entry supporters no_conflict vouchers vouches null_votes
    has_entry delete_if insert lookup
new_view = refl

finds_correct : (x : ℕ) × In x four × (ltb 2 x ≡ true) × (faulty_one x ≡ false)
finds_correct =
    one_correct_quorum_correct four faulty_one 1 (λ a. ltb 2 a) (omega arith)
      (unfold one_correct_quorum in omega arith)

common_case_quorum-intersect_example :
    (x : ℕ) × In x four × (first_three x ≡ true) × (last_three x ≡ true) × (faulty_one x ≡ false)
common_case_quorum-intersect_example =
    common_case_quorum-intersect four faulty_one 1 first_three last_three (omega arith)
      (unfold common_case_quorum in omega arith) (unfold common_case_quorum in omega arith)

common_case_quorum-reachable_example :
    (common_case_quorum 7 (fault_bound 7) ≤ all_correct_replicas_quorum 7 (fault_bound 7))
    × (one_correct_quorum 7 (fault_bound 7) + fault_bound 7 ≤ common_case_quorum 7 (fault_bound 7))
common_case_quorum-reachable_example = common_case_quorum-reachable 7 (omega arith)

assign_sequence_numbers_example :
    Explained 4 1 three_messages 2 0 (assign_sequence_numbers 3 4 1 2 three_messages 0)
assign_sequence_numbers_example =
    assign_sequence_numbers_lem 4 1 three_messages 2 0 3 (omega arith) (omega arith)

prepared_request_survives_example :
    (request.batch_digest ≡ "a")
    ⊎ ((em : VcPq) × Selected 4 1 three_messages 1 em
        × (0 < em.view)
        × (em.batch_digest ≡ request.batch_digest))
prepared_request_survives_example =
    prepared_request_survives four faulty_one first_three first_three three_messages 1 2 0 3 1 0 "a"
      (request ∷ []) request (omega arith) (omega arith) (omega arith)
      (unfold common_case_quorum in omega arith) refl (omega arith) new_view (inl refl) refl

assigned_request_was_proposed_example :
    (m : VcBasis) × (q : VcPq) × In m three_messages
    × ((m.replica_id == 3) ≡ false)
    × In q m.qset
    × (q.sequence_number ≡ 1)
    × (q.batch_digest ≡ "a")
assigned_request_was_proposed_example =
    assigned_request_was_proposed 4 1 2 0 3 three_messages (λ m. m.replica_id == 3) (request ∷ [])
      request (omega arith) (omega arith) (omega arith) new_view (inl refl)
      (λ e. ground (arith, eq_iff "a" ""))
