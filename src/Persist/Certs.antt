-- ===== src/Persist/Certs.antt =====
-- What a replica stores of its certs with persistQSet, persistPSet and persistCSet, it restores with
-- restoreQSet, restorePSet and restoreCSet of persist.go.
use go_hpc_rbft.Base.{
  ◌≡◌, refl, ap, ◌∙◌, inl, inr, arith, List, [], ◌∷◌, ◌++◌, Option, none, some, String, All, In,
  All-In, Option-cases, Bool-cases,
}
use go_hpc_rbft.Base.Maps.{IsMap, lookup, In-lookup}
use go_hpc_rbft.Base.Keys.{DotFree}
use go_hpc_rbft.Messages.{PrePrepare, Prepare, Commit}
use go_hpc_rbft.Certs.{MsgId, MsgCert, CertStore, msg_id_eq, get_cert}
use go_hpc_rbft.Votes.Propose.{pre_prepare_key}
use go_hpc_rbft.Persist.Read.{restore_set, restore_q_set, restore_p_set, restore_c_set}
use go_hpc_rbft.Persist.Restore.{IsStorable, Reads, written, restore_set-written}
use go_hpc_rbft.Persist.{
  Entry, qpc_key, values, stored, persist_q_set, persist_p_set, persist_c_set,
}

-- The part of each cert that has it, by msgID.
unfoldable pub part_of : {A : Type 0} → (MsgCert → Option A) → CertStore → List (MsgId × A)
part_of f [] = []
part_of f ((idx, cert) ∷ certs) =
    let rest = part_of f certs in elim (f cert) [ none ↦ rest | some a ↦ (idx, a) ∷ rest ]

-- What is stored when a function is called for each cert.
unfoldable pub stores : (MsgId × MsgCert → List Entry) → CertStore → List Entry
stores write [] = []
stores write (x ∷ certs) = write x ++ stores write certs

-- What the cert has can be stored and read back.
abbrev pub Sound :
    {A : Type 0}
    → (MsgCert → Option A)
    → (A → Option String)
    → (String → Option A)
    → MsgId × MsgCert
    → Type 0
Sound {A = A} f marshal unmarshal (idx, cert) =
    (a : A) → f cert ≡ some a → IsStorable idx × Reads marshal unmarshal a

module _ {A : Type 0} (f : MsgCert → Option A) where
  pub part_of_without :
      (idx : MsgId) (cert : MsgCert) (certs : CertStore)
      → f cert ≡ none
      → part_of f ((idx, cert) ∷ certs) ≡ part_of f certs
  unfolding part_of
  part_of_without idx cert certs h = rw (part_of, h) refl

  pub part_of_with :
      (idx : MsgId) (cert : MsgCert) (certs : CertStore) (a : A)
      → f cert ≡ some a
      → part_of f ((idx, cert) ∷ certs) ≡ (idx, a) ∷ part_of f certs
  unfolding part_of
  part_of_with idx cert certs a h = rw (part_of, h) refl

  pub part_of-lookup :
      (k : MsgId) (certs : CertStore) → lookup k certs ≡ none → lookup k (part_of f certs) ≡ none
  unfolding part_of lookup
  part_of-lookup k [] h = refl
  part_of-lookup k ((idx, cert) ∷ certs) h = elim (Bool-cases (msg_id_eq.beq idx k)) [
    | inl hit ↦ absurd (ground (arith, hit, h))
    | inr miss ↦ elim (Option-cases (f cert)) [
      | inl without ↦
          rw (part_of_without idx cert certs without) (part_of-lookup k certs (rw miss at h))
      | inr (a, with_it) ↦
          rw (part_of_with idx cert certs a with_it, miss) (part_of-lookup k certs (rw miss at h))
    ]
  ]

  pub part_of-IsMap : (certs : CertStore) → IsMap certs → IsMap (part_of f certs)
  unfolding part_of
  part_of-IsMap [] h = tt
  part_of-IsMap ((idx, cert) ∷ certs) (new, h) = elim (Option-cases (f cert)) [
    | inl without ↦ rw (part_of_without idx cert certs without) (part_of-IsMap certs h)
    | inr (a, with_it) ↦
        rw (part_of_with idx cert certs a with_it)
          (part_of-lookup idx certs new, part_of-IsMap certs h)
  ]

  module _ (prefix : String) (dots : DotFree prefix) (marshal : A → Option String)
      (unmarshal : String → Option A) where
    part_of-Sound :
        (certs : CertStore)
        → All (Sound f marshal unmarshal) certs
        → All (λ (x : MsgId × A). IsStorable x.0 × Reads marshal unmarshal x.1) (part_of f certs)
    unfolding part_of
    part_of-Sound [] h = tt
    part_of-Sound ((idx, cert) ∷ certs) (h, hs) = elim (Option-cases (f cert)) [
      | inl without ↦ rw (part_of_without idx cert certs without) (part_of-Sound certs hs)
      | inr (a, with_it) ↦
          rw (part_of_with idx cert certs a with_it) (h a with_it, part_of-Sound certs hs)
    ]

    unfoldable store_part : MsgId × MsgCert → List Entry
    store_part (idx, cert) = elim (f cert) [
      | none ↦ []
      | some a ↦ stored (qpc_key prefix idx) (marshal a)
    ]

    part_without : (idx : MsgId) (cert : MsgCert) → f cert ≡ none → store_part (idx, cert) ≡ []
    unfolding store_part
    part_without idx cert h = rw (store_part, h) refl

    part_with :
        (idx : MsgId) (cert : MsgCert) (a : A)
        → f cert ≡ some a
        → store_part (idx, cert) ≡ stored (qpc_key prefix idx) (marshal a)
    unfolding store_part
    part_with idx cert a h = rw (store_part, h) refl

    stores-part_of :
        (write : MsgId × MsgCert → List Entry) (certs : CertStore)
        → ((x : MsgId × MsgCert) → In x certs → write x ≡ store_part x)
        → stores write certs ≡ written prefix marshal (part_of f certs)
    unfolding stores written part_of
    stores-part_of write [] h = refl
    stores-part_of write ((idx, cert) ∷ certs) h =
        let rest = stores-part_of write certs (λ x i. h x (inr i)) in
        let first = h (idx, cert) (inl refl) in
        elim (Option-cases (f cert)) [
          | inl without ↦
              rw (part_of_without idx cert certs without)
                (ap (λ w. w ++ stores write certs) (first ∙ part_without idx cert without) ∙ rest)
          | inr (a, with_it) ↦ rw (part_of_with idx cert certs a with_it) (
              ap (λ w. w ++ stores write certs) (first ∙ part_with idx cert a with_it)
              ∙ ap (λ r. stored (qpc_key prefix idx) (marshal a) ++ r) rest)
        ]

    restore_set-part_of :
        (write : MsgId × MsgCert → List Entry) (certs : CertStore)
        → IsMap certs
        → All (Sound f marshal unmarshal) certs
        → ((x : MsgId × MsgCert) → In x certs → write x ≡ store_part x)
        → restore_set prefix unmarshal (some (stores write certs)) ≡ (part_of f certs, none)
    restore_set-part_of write certs keyed sound h =
        ap (λ m. restore_set prefix unmarshal (some m)) (stores-part_of write certs h)
        ∙ restore_set-written prefix dots marshal unmarshal (part_of f certs)
            (part_of-IsMap certs keyed) (part_of-Sound certs sound)

abbrev pub proposal : MsgCert → Option PrePrepare
proposal cert = cert.pre_prepare

abbrev pub prepare_votes : MsgCert → Option (List Prepare)
prepare_votes cert = some (values cert.prepare)

abbrev pub commit_votes : MsgCert → Option (List Commit)
commit_votes cert = some (values cert.commit)

-- The pre-prepare of a cert is for its msgID.
abbrev pub ForItsKey : MsgId × MsgCert → Type 0
ForItsKey (idx, cert) = (p : PrePrepare) → cert.pre_prepare ≡ some p → pre_prepare_key p ≡ idx

write_proposal :
    (marshal : PrePrepare → Option String) (unmarshal : String → Option PrePrepare)
    (x : MsgId × MsgCert)
    → ForItsKey x
    → persist_q_set marshal (proposal x.1)
      ≡ store_part proposal "qset" (refl, (refl, (refl, (refl, tt)))) marshal unmarshal x
unfolding persist_q_set store_part
write_proposal marshal unmarshal (idx, cert) own = elim (Option-cases cert.pre_prepare) [
  | inl without ↦ rw (persist_q_set, store_part, without) refl
  | inr (p, with_it) ↦
      let key = own p with_it in
      rw (persist_q_set, store_part, with_it) (ap (λ k. stored (qpc_key "qset" k) (marshal p)) key)
]

-- Let no two certs have the same msgID, let each pre-prepare stand in the cert of its own msgID,
-- and be marshalled to bytes that unmarshal to it, and let the views and numbers of these certs be
-- below 2^63 and their digests without a dot. When persistQSet has stored each pre-prepare,
-- restoreQSet returns exactly these pre-prepares, each under its msgID, and no error.
pub restore_q_set-persist_q_set :
    (marshal : PrePrepare → Option String) (unmarshal : String → Option PrePrepare)
    (certs : CertStore)
    → IsMap certs
    → All ForItsKey certs
    → All (Sound proposal marshal unmarshal) certs
    → restore_q_set unmarshal (some (stores (λ x. persist_q_set marshal (proposal x.1)) certs))
      ≡ (part_of proposal certs, none)
unfolding restore_q_set
restore_q_set-persist_q_set marshal unmarshal certs keyed own sound =
    restore_set-part_of proposal "qset" (refl, (refl, (refl, (refl, tt)))) marshal unmarshal
      (λ x. persist_q_set marshal (proposal x.1)) certs keyed sound
      (λ x i. write_proposal marshal unmarshal x (All-In ForItsKey certs x own i))

module _ (certs : CertStore) where
  get_cert-In :
      (idx : MsgId) (cert : MsgCert)
      → IsMap certs
      → In (idx, cert) certs
      → get_cert certs idx ≡ (cert, certs)
  unfolding get_cert
  get_cert-In idx cert keyed i = rw (get_cert, In-lookup idx cert certs keyed i) refl

  -- Let no two certs have the same msgID, let each list of votes be marshalled to bytes that
  -- unmarshal to it, and let the views and numbers of the certs be below 2^63 and their digests
  -- without a dot. When persistPSet and persistCSet have been called for each cert, restorePSet
  -- returns the prepares and restoreCSet the commits of each cert under its msgID, and no error.
  pub restore_votes-persist_votes :
      (marshal_p : List Prepare → Option String) (unmarshal_p : String → Option (List Prepare))
      (marshal_c : List Commit → Option String) (unmarshal_c : String → Option (List Commit))
      → IsMap certs
      → All (Sound prepare_votes marshal_p unmarshal_p) certs
      → All (Sound commit_votes marshal_c unmarshal_c) certs
      → (restore_p_set unmarshal_p
            (some (stores (λ x. (persist_p_set marshal_p certs x.0).1) certs))
          ≡ (part_of prepare_votes certs, none))
        × (restore_c_set unmarshal_c
              (some (stores (λ x. (persist_c_set marshal_c certs x.0).1) certs))
            ≡ (part_of commit_votes certs, none))
  unfolding restore_p_set restore_c_set persist_p_set persist_c_set store_part
  restore_votes-persist_votes marshal_p unmarshal_p marshal_c unmarshal_c keyed p_sound c_sound = (
    restore_set-part_of prepare_votes "pset" (refl, (refl, (refl, (refl, tt)))) marshal_p
        unmarshal_p (λ x. (persist_p_set marshal_p certs x.0).1) certs keyed p_sound
        (λ x i. rw (get_cert-In x.0 x.1 keyed i) refl),
    restore_set-part_of commit_votes "cset" (refl, (refl, (refl, (refl, tt)))) marshal_c unmarshal_c
        (λ x. (persist_c_set marshal_c certs x.0).1) certs keyed c_sound
        (λ x i. rw (get_cert-In x.0 x.1 keyed i) refl),
  )
