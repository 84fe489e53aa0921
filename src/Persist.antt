-- ===== src/Persist.antt =====
-- persist.go: the keys under which a replica stores its votes and its P and Q lists, and what it
-- writes and deletes. A message is stored as the bytes of its generated MarshalVTStrict, a parameter
-- that may fail. The result of a function here is what it stores, keys with their values, or the
-- keys that it deletes.
pub mod Read
pub mod RoundTrip
pub mod Restore
pub mod Certs
pub mod Recover
pub mod Restart
pub mod View
use Prim.Native.String.{◌++◌}
use go_hpc_rbft.Base.{ℕ, List, [], ◌∷◌, Option, none, some, String, nat_eq}
use mathlib.Core.List.{◌++◌ as append}
use go_hpc_rbft.Base.Keys.{decimal}
use go_hpc_rbft.Messages.{PrePrepare, Prepare, Commit, VcPq}
use go_hpc_rbft.Certs.{MsgId, Qidx, VoteId, CertStore, get_cert}

abbrev pub Entry : Type 0
Entry = String × String

-- `%d` of a uint64, which has at most 20 digits, before a text.
abbrev pub printed : ℕ → String → String
printed n rest = decimal 20 n rest

-- fmt.Sprintf("qset.%d.%d.%s", v, n, d), and with "pset" and "cset".
unfoldable pub qpc_key : String → MsgId → String
qpc_key prefix idx =
    prefix ++ String.◌∷◌ "." (printed idx.v (String.◌∷◌ "." (printed idx.n (String.◌∷◌ "." idx.d))))

unfoldable pub qlist_key : Qidx → String
qlist_key idx = "qlist" ++ String.◌∷◌ "." (printed idx.n (String.◌∷◌ "." idx.d))

unfoldable pub plist_key : ℕ → String
plist_key n = "plist" ++ String.◌∷◌ "." (printed n "")

unfoldable pub values : {K V : Type 0} → List (K × V) → List V
values [] = []
values ((_, v) ∷ m) = v ∷ values m

-- StoreState, when the value could be marshalled.
unfoldable pub stored : String → Option String → List Entry
stored key none = []
stored key (some raw) = (key, raw) ∷ []

module _ (marshal : PrePrepare → Option String) where
  unfoldable pub persist_q_set : Option PrePrepare → List Entry
  unfolding qpc_key stored
  persist_q_set none = []
  persist_q_set (some p) =
      stored (qpc_key "qset" (record { v = p.view; n = p.sequence_number; d = p.batch_digest }))
        (marshal p)

-- getCert adds a cert when there is none, so the certs are a result too.
module _ (marshal : List Prepare → Option String) where
  unfoldable pub persist_p_set : CertStore → MsgId → CertStore × List Entry
  unfolding get_cert qpc_key stored values
  persist_p_set certs idx =
      let (cert, certs') = get_cert certs idx in
      (certs', stored (qpc_key "pset" idx) (marshal (values cert.prepare)))

module _ (marshal : List Commit → Option String) where
  unfoldable pub persist_c_set : CertStore → MsgId → CertStore × List Entry
  unfolding get_cert qpc_key stored values
  persist_c_set certs idx =
      let (cert, certs') = get_cert certs idx in
      (certs', stored (qpc_key "cset" idx) (marshal (values cert.commit)))

unfoldable pub persist_del_q_set : MsgId → List String
unfolding qpc_key
persist_del_q_set idx = qpc_key "qset" idx ∷ []

unfoldable pub persist_del_p_set : MsgId → List String
unfolding qpc_key
persist_del_p_set idx = qpc_key "pset" idx ∷ []

unfoldable pub persist_del_c_set : MsgId → List String
unfolding qpc_key
persist_del_c_set idx = qpc_key "cset" idx ∷ []

unfoldable pub persist_del_qpc_set : MsgId → List String
unfolding persist_del_q_set persist_del_p_set persist_del_c_set
persist_del_qpc_set idx =
    append (persist_del_q_set idx) (append (persist_del_p_set idx) (persist_del_c_set idx))

-- An entry that cannot be marshalled is skipped.
module _ (marshal : VcPq → Option String) where
  unfoldable pub persist_q_list : List (Qidx × VcPq) → List Entry
  unfolding qlist_key stored
  persist_q_list [] = []
  persist_q_list ((idx, q) ∷ ql) = append (stored (qlist_key idx) (marshal q)) (persist_q_list ql)

  unfoldable pub persist_p_list : List (ℕ × VcPq) → List Entry
  unfolding plist_key stored
  persist_p_list [] = []
  persist_p_list ((idx, p) ∷ pl) = append (stored (plist_key idx) (marshal p)) (persist_p_list pl)

unfoldable pub keys : Option (List Entry) → List String
keys none = []
keys (some []) = []
keys (some ((k, _) ∷ m)) = k ∷ keys (some m)

-- The arguments are what ReadStateSet returns for "qlist." and "plist.".
unfoldable pub persist_del_qp_list : Option (List Entry) → Option (List Entry) → List String
unfolding keys
persist_del_qp_list q_index p_index = append (keys q_index) (keys p_index)
