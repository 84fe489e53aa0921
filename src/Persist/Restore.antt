-- ===== src/Persist/Restore.antt =====
-- What restoreQSet, restorePSet and restoreCSet of persist.go read back of the stored certs.
use mathlib.Core.List.{append_assoc, append-nil}
use go_hpc_rbft.Base.{
  ◌^◌, ◌<◌, ◌≡◌, refl, sym, ap, subst, ◌∙◌, inr, List, [], ◌∷◌, ◌++◌, Option, none, some, String,
  All, arith,
}
use go_hpc_rbft.Base.Maps.{IsMap, insert, lookup_before, insert_new}
use go_hpc_rbft.Base.Keys.{DotFree}
use go_hpc_rbft.Certs.{MsgId, msg_id_eq}
use go_hpc_rbft.Persist.Read.{parse_qpc_key, restore_entries, restore_set}
use go_hpc_rbft.Persist.RoundTrip.{parse_qpc_key-qpc_key}
use go_hpc_rbft.Persist.{Entry, qpc_key, stored}

-- View and number are below 2^63 and the digest has no dot.
abbrev pub IsStorable : MsgId → Type 0
IsStorable idx = (idx.v < 2 ^ 63) × ((idx.n < 2 ^ 63) × DotFree idx.d)

unfoldable pub written : {A : Type 0} → String → (A → Option String) → List (MsgId × A) → List Entry
unfolding stored
written prefix marshal [] = []
written prefix marshal ((idx, a) ∷ m) =
    stored (qpc_key prefix idx) (marshal a) ++ written prefix marshal m

-- The message can be marshalled, and read back.
abbrev pub Reads : {A : Type 0} → (A → Option String) → (String → Option A) → A → Type 0
Reads marshal unmarshal a = (raw : String) × ((marshal a ≡ some raw) × (unmarshal raw ≡ some a))

module _ {A : Type 0} (prefix : String) (dots : DotFree prefix) (marshal : A → Option String)
    (unmarshal : String → Option A) where
  reads_key : (idx : MsgId) → IsStorable idx → parse_qpc_key (qpc_key prefix idx) prefix ≡ inr idx
  reads_key idx (hv, (hn, hd)) =
      let parsed = parse_qpc_key-qpc_key prefix idx dots (omega arith) (omega arith) hd in
      ground (arith, parsed)

  written_entry :
      (idx : MsgId) (a : A) (raw : String) (m : List (MsgId × A))
      → marshal a ≡ some raw
      → written prefix marshal ((idx, a) ∷ m) ≡ (qpc_key prefix idx, raw) ∷ written prefix marshal m
  unfolding written stored
  written_entry idx a raw m sent = rw sent refl

  restore_entry :
      (key raw : String) (idx : MsgId) (a : A) (payload : List Entry) (set : List (MsgId × A))
      → parse_qpc_key key prefix ≡ inr idx
      → unmarshal raw ≡ some a
      → restore_entries prefix unmarshal ((key, raw) ∷ payload) set none
        ≡ restore_entries prefix unmarshal payload (insert idx a set) none
  unfolding restore_entries
  restore_entry key raw idx a payload set parsed back = rw (restore_entries, parsed, back) refl

  restore_entries-written :
      (m set : List (MsgId × A))
      → IsMap (set ++ m)
      → All (λ (x : MsgId × A). IsStorable x.0 × Reads marshal unmarshal x.1) m
      → restore_entries prefix unmarshal (written prefix marshal m) set none ≡ (set ++ m, none)
  unfolding restore_entries written
  restore_entries-written [] set h all = rw append-nil refl
  restore_entries-written ((idx, a) ∷ m) set h ((ok, (raw, (sent, back))), all) =
      let assoc = append_assoc set ((idx, a) ∷ []) m in
      let new = insert_new idx a set (lookup_before idx a set m h) in
      rw (written_entry idx a raw m sent) (
        restore_entry (qpc_key prefix idx) raw idx a (written prefix marshal m) set
          (reads_key idx ok) back
        ∙ ap (λ s. restore_entries prefix unmarshal (written prefix marshal m) s none) new
        ∙ restore_entries-written m (set ++ (idx, a) ∷ []) (subst IsMap (sym assoc) h) all
        ∙ ap (λ r. (r, none)) assoc)

  pub restore_set-written :
      (m : List (MsgId × A))
      → IsMap m
      → All (λ (x : MsgId × A). IsStorable x.0 × Reads marshal unmarshal x.1) m
      → restore_set prefix unmarshal (some (written prefix marshal m)) ≡ (m, none)
  unfolding restore_set
  restore_set-written m h all = restore_entries-written m [] h all
