-- ===== src/ViewChange/Assign.antt =====
-- viewchange_mgr.go: assignSequenceNumbers, which picks for the new view the request of every
-- sequence number in (h, h+L] from the P and Q sets of the view change messages.
pub mod Selection
pub mod Dense
pub mod Numbering
pub mod Safety
use go_hpc_rbft.Base.{
  ℕ, zero, suc, ◌+◌, Bool, true, false, not, ◌&&◌, ◌||◌, List, [], ◌∷◌, Option, none, some, String,
  ltb, leb, ◌==◌, str_eq, nat_eq, if◌then◌else◌,
}
use go_hpc_rbft.Base.Words.{◌+ᵤ◌}
use go_hpc_rbft.Base.Maps.{lookup, insert, delete_if}
use go_hpc_rbft.Messages.{VcPq, VcBasis}
use go_hpc_rbft.Quorum.{common_case_quorum, one_correct_quorum}

-- "∀<n,d',v'> ∈ m'.P": no entry for `n` speaks against `em`.
unfoldable pub no_conflict : ℕ → VcPq → List VcPq → Bool
no_conflict n em [] = true
no_conflict n em (emp ∷ pset) =
    let rest = no_conflict n em pset in
    if not (n == emp.sequence_number)
    then rest
    else if not
        (ltb emp.view em.view || (emp.view == em.view && str_eq emp.batch_digest em.batch_digest))
    then false
    else rest

-- A1: the messages with h < n that do not speak against `em`.
unfoldable pub supporters : ℕ → VcPq → List VcBasis → ℕ
supporters n em [] = 0
supporters n em (mp ∷ set) =
    let rest = supporters n em set in
    if leb n mp.h then rest else if no_conflict n em mp.pset then rest + 1 else rest

-- "∃<n,d',v'> ∈ m'.Q"
unfoldable pub vouches : ℕ → VcPq → List VcPq → Bool
vouches n em [] = false
vouches n em (emp ∷ qset) =
    let rest = vouches n em qset in
    if not (n == emp.sequence_number)
    then rest
    else if leb em.view emp.view && str_eq emp.batch_digest em.batch_digest
    then true
    else rest

-- A2: the messages whose Q set vouches for `em`.
unfoldable pub vouchers : ℕ → VcPq → List VcBasis → ℕ
vouchers n em [] = 0
vouchers n em (mp ∷ set) =
    let rest = vouchers n em set in if vouches n em mp.qset then rest + 1 else rest

unfoldable pub has_entry : ℕ → List VcPq → Bool
has_entry n [] = false
has_entry n (em ∷ pset) = em.sequence_number == n || has_entry n pset

-- The messages with h < n and no entry for `n` in P.
unfoldable pub null_votes : ℕ → List VcBasis → ℕ
null_votes n [] = 0
null_votes n (m ∷ set) =
    let rest = null_votes n set in
    if leb n m.h then rest else if has_entry n m.pset then rest else rest + 1

-- What the loop over sequence numbers ends with: `nil`, or msgMap and maxN.
pub data Outcome : Type 0 where
  out_of_fuel : Outcome
  unassigned : Outcome
  assigned : List (ℕ × String) → ℕ → Outcome

module _ (nodes f : ℕ) (set : List VcBasis) where
  -- The loop over one P set: the first entry for `n` that meets A1 and A2.
  unfoldable pub select_entry : ℕ → List VcPq → Option VcPq
  select_entry n [] = none
  select_entry n (em ∷ pset) =
      let rest = select_entry n pset in
      if not (n == em.sequence_number)
      then rest
      else if ltb (supporters n em set) (common_case_quorum nodes f)
      then rest
      else if ltb (vouchers n em set) (one_correct_quorum nodes f)
      then rest
      else some em

  -- "∃m ∈ S..."
  unfoldable pub select_request : ℕ → List VcBasis → Option VcPq
  select_request n [] = none
  select_request n (m ∷ ms) = elim (select_entry n m.pset) [
    | some em ↦ some em
    | none ↦ select_request n ms
  ]

  -- `for n := h + 1; n <= h + L; n++`, with `last` for h + L.
  unfoldable pub assign_loop : ℕ → ℕ → ℕ → List (ℕ × String) → ℕ → Outcome
  assign_loop zero last n msg_map max_n = out_of_fuel
  assign_loop (suc fuel) last n msg_map max_n = elim (leb n last) [
    | false ↦ assigned msg_map max_n
    | true ↦ elim (select_request n set) [
      | some em ↦ assign_loop fuel last (n +ᵤ 1) (insert n em.batch_digest msg_map) n
      | none ↦ elim (ltb (null_votes n set) (common_case_quorum nodes f)) [
        | true ↦ unassigned
        | false ↦ assign_loop fuel last (n +ᵤ 1) (insert n "" msg_map) max_n
      ]
    ]
  ]

-- "prune top null requests"
unfoldable pub prune : ℕ → List (ℕ × String) → List (ℕ × String)
prune max_n = delete_if (λ n msg. leb max_n n && str_eq msg "")

-- A missing key reads as the empty digest.
unfoldable pub msg_at : List (ℕ × String) → ℕ → String
msg_at msg_map x = elim (lookup x msg_map) [ none ↦ "" | some d ↦ d ]

-- `for range msgMap`: one entry for each that the map holds, numbered from `x` on.
unfoldable pub number_from : List (ℕ × String) → ℕ → List (ℕ × String) → List VcPq
unfolding msg_at
number_from msg_map x [] = []
number_from msg_map x (_ ∷ rest) =
    record { sequence_number = x; batch_digest = msg_at msg_map x; view = 0 }
    ∷ number_from msg_map (x +ᵤ 1) rest

pub data Assignment : Type 0 where
  running : Assignment
  failed : Assignment
  chosen : List VcPq → Assignment

unfoldable pub finish : ℕ → Outcome → Assignment
unfolding prune
finish h out_of_fuel = running
finish h unassigned = failed
finish h (assigned msg_map max_n) =
    let pruned = prune max_n msg_map in chosen (number_from pruned (h +ᵤ 1) pruned)

-- `l` is chainConfig.L; `failed` is the `nil` result.
unfoldable pub assign_sequence_numbers : ℕ → ℕ → ℕ → ℕ → List VcBasis → ℕ → Assignment
assign_sequence_numbers fuel nodes f l set h =
    finish h (assign_loop nodes f set fuel (h +ᵤ l) (h +ᵤ 1) [] (h +ᵤ 1))
