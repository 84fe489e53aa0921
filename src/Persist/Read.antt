-- ===== src/Persist/Read.antt =====
-- persist.go: parseQPCKey, restoreQSet, restorePSet, restoreCSet, restoreQList and restorePList. An
-- argument `payload` is what ReadStateSet returns, none for an error; the generated UnmarshalVT is a
-- parameter.
use go_hpc_rbft.Base.{
  ℕ, ◌⊎◌, inl, inr, not, List, [], ◌∷◌, Option, none, some, String, if◌then◌else◌, str_eq, nat_eq,
}
use go_hpc_rbft.Base.Maps.{insert}
use go_hpc_rbft.Base.Keys.{split, atoi}
use go_hpc_rbft.Messages.{PrePrepare, Prepare, Commit, VcPq}
use go_hpc_rbft.Certs.{MsgId, Qidx, msg_id_eq, qidx_eq}
use go_hpc_rbft.Persist.{Entry}

pub data RestoreError : Type 0 where
  read_failed incorrect_format incorrect_prefix parse_failed unmarshal_failed : RestoreError

unfoldable pub parse_qpc_parts : String → List String → RestoreError ⊎ MsgId
parse_qpc_parts prefix (p ∷ v ∷ n ∷ d ∷ []) =
    if not (str_eq p prefix) then inl RestoreError.incorrect_prefix else elim (atoi v) [
      | none ↦ inl RestoreError.parse_failed
      | some v' ↦ elim (atoi n) [
        | none ↦ inl RestoreError.parse_failed
        | some n' ↦ inr (record { v = v'; n = n'; d = d })
      ]
    ]
parse_qpc_parts prefix _ = inl RestoreError.incorrect_format

unfoldable pub parse_qpc_key : String → String → RestoreError ⊎ MsgId
unfolding parse_qpc_parts
parse_qpc_key key prefix = parse_qpc_parts prefix (split key)

-- The three functions that restore a set by msgID differ in the prefix and the message. The error
-- is a variable of the function that each entry sets, so the last entry decides it.
module _ {A : Type 0} (prefix : String) (unmarshal : String → Option A) where
  unfoldable pub restore_entries :
      List Entry → List (MsgId × A) → Option RestoreError → List (MsgId × A) × Option RestoreError
  unfolding parse_qpc_key
  restore_entries [] set err = (set, err)
  restore_entries ((key, raw) ∷ payload) set err = elim (parse_qpc_key key prefix) [
    | inl e ↦ restore_entries payload set (some e)
    | inr idx ↦ elim (unmarshal raw) [
      | none ↦ restore_entries payload set (some RestoreError.unmarshal_failed)
      | some a ↦ restore_entries payload (insert idx a set) none
    ]
  ]

  unfoldable pub restore_set : Option (List Entry) → List (MsgId × A) × Option RestoreError
  unfolding restore_entries
  restore_set none = ([], some RestoreError.read_failed)
  restore_set (some payload) = restore_entries payload [] none

unfoldable pub restore_q_set :
    (String → Option PrePrepare)
    → Option (List Entry)
    → List (MsgId × PrePrepare) × Option RestoreError
unfolding restore_set
restore_q_set unmarshal payload = restore_set "qset" unmarshal payload

unfoldable pub restore_p_set :
    (String → Option (List Prepare))
    → Option (List Entry)
    → List (MsgId × List Prepare) × Option RestoreError
unfolding restore_set
restore_p_set unmarshal payload = restore_set "pset" unmarshal payload

unfoldable pub restore_c_set :
    (String → Option (List Commit))
    → Option (List Entry)
    → List (MsgId × List Commit) × Option RestoreError
unfolding restore_set
restore_c_set unmarshal payload = restore_set "cset" unmarshal payload

unfoldable pub parse_qlist_parts : List String → RestoreError ⊎ Qidx
parse_qlist_parts (p ∷ n ∷ d ∷ []) =
    if not (str_eq p "qlist") then inl RestoreError.incorrect_prefix else elim (atoi n) [
      | none ↦ inl RestoreError.parse_failed
      | some n' ↦ inr (record { d = d; n = n' })
    ]
parse_qlist_parts _ = inl RestoreError.incorrect_format

unfoldable pub parse_plist_parts : List String → RestoreError ⊎ ℕ
parse_plist_parts (p ∷ n ∷ []) =
    if not (str_eq p "plist")
    then inl RestoreError.incorrect_prefix
    else elim (atoi n) [ none ↦ inl RestoreError.parse_failed | some n' ↦ inr n' ]
parse_plist_parts _ = inl RestoreError.incorrect_format

-- A key that cannot be read ends the function with a nil map, a value that cannot be unmarshalled
-- is skipped.
module _ (unmarshal : String → Option VcPq) where
  unfoldable pub restore_q_entries :
      List Entry
      → List (Qidx × VcPq)
      → Option RestoreError
      → List (Qidx × VcPq) × Option RestoreError
  unfolding parse_qlist_parts
  restore_q_entries [] m err = (m, err)
  restore_q_entries ((key, raw) ∷ payload) m err = elim (parse_qlist_parts (split key)) [
    | inl e ↦ ([], some e)
    | inr idx ↦ elim (unmarshal raw) [
      | none ↦ restore_q_entries payload m (some RestoreError.unmarshal_failed)
      | some q ↦ restore_q_entries payload (insert idx q m) none
    ]
  ]

  unfoldable pub restore_q_list : Option (List Entry) → List (Qidx × VcPq) × Option RestoreError
  unfolding restore_q_entries
  restore_q_list none = ([], some RestoreError.read_failed)
  restore_q_list (some payload) = restore_q_entries payload [] none

  unfoldable pub restore_p_entries :
      List Entry → List (ℕ × VcPq) → Option RestoreError → List (ℕ × VcPq) × Option RestoreError
  unfolding parse_plist_parts
  restore_p_entries [] m err = (m, err)
  restore_p_entries ((key, raw) ∷ payload) m err = elim (parse_plist_parts (split key)) [
    | inl e ↦ ([], some e)
    | inr n ↦ elim (unmarshal raw) [
      | none ↦ restore_p_entries payload m (some RestoreError.unmarshal_failed)
      | some p ↦ restore_p_entries payload (insert n p m) none
    ]
  ]

  unfoldable pub restore_p_list : Option (List Entry) → List (ℕ × VcPq) × Option RestoreError
  unfolding restore_p_entries
  restore_p_list none = ([], some RestoreError.read_failed)
  restore_p_list (some payload) = restore_p_entries payload [] none
