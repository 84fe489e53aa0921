-- ===== src/Watermarks/Cleared.antt =====
-- What the loops of moveWatermarks of rbft_impl.go leave as it is, and what they delete.
use go_hpc_rbft.Base.{
  ℕ, ◌≡◌, ◌<◌, refl, ap, ◌∙◌, inl, inr, true, false, [], ◌∷◌, none, arith, if◌then◌else◌, leb, ◌==◌,
  Bool-cases, string_eq, nat_eq,
}
use go_hpc_rbft.Base.Maps.{lookup, lookup-delete, lookup_rest}
use go_hpc_rbft.Certs.{MsgId, MsgCert, CertStore, msg_id_eq}
use go_hpc_rbft.Watermarks.{Cellar, drop_cert, drop_certs}

-- The fields that neither loop writes.
abbrev pub Frame : Cellar → Cellar → Type 0
Frame s s' = (s'.qlist ≡ s.qlist) × (s'.plist ≡ s.plist)

module _ (h : ℕ) where
  module _ (idx : MsgId) (cert : MsgCert) (certs : CertStore) (s : Cellar) where
    step_low :
        leb idx.n h ≡ true
        → drop_certs h ((idx, cert) ∷ certs) s ≡ drop_certs h certs (drop_cert idx cert s)
    unfolding drop_certs
    step_low low = ap (λ b. drop_certs h certs (if b then drop_cert idx cert s else s)) low

    step_high : leb idx.n h ≡ false → drop_certs h ((idx, cert) ∷ certs) s ≡ drop_certs h certs s
    unfolding drop_certs
    step_high high = ap (λ b. drop_certs h certs (if b then drop_cert idx cert s else s)) high

    lookup-drop_cert :
        (j : MsgId)
        → lookup j (drop_cert idx cert s).cert_store
          ≡ (if msg_id_eq.beq idx j then none else lookup j s.cert_store)
    unfolding drop_cert
    lookup-drop_cert j = lookup-delete idx j s.cert_store

  pub drop_certs-Frame :
      (certs : CertStore) (s : Cellar)
      → Frame s (drop_certs h certs s) × ((drop_certs h certs s).batch_store ≡ s.batch_store)
  unfolding drop_certs drop_cert
  drop_certs-Frame [] s = ((refl, refl), refl)
  drop_certs-Frame ((idx, cert) ∷ certs) s = elim (Bool-cases (leb idx.n h)) [
    | inl low ↦ rw (step_low idx cert certs s low) (drop_certs-Frame certs (drop_cert idx cert s))
    | inr high ↦ rw (step_high idx cert certs s high) (drop_certs-Frame certs s)
  ]

  pub drop_certs-seq_map :
      (certs : CertStore) (s : Cellar) (k : ℕ)
      → h < k
      → lookup k (drop_certs h certs s).seq_map ≡ lookup k s.seq_map
  unfolding drop_certs drop_cert
  drop_certs-seq_map [] s k lt = refl
  drop_certs-seq_map ((idx, cert) ∷ certs) s k lt = elim (Bool-cases (leb idx.n h)) [
    | inl low ↦
        let other : (idx.n == k) ≡ false = ground (arith, low) in
        rw (step_low idx cert certs s low) (
          drop_certs-seq_map certs (drop_cert idx cert s) k lt
          ∙ lookup-delete idx.n k s.seq_map
          ∙ ap (λ b. if b then none else lookup k s.seq_map) other)
    | inr high ↦ rw (step_high idx cert certs s high) (drop_certs-seq_map certs s k lt)
  ]

  pub drop_certs-kept :
      (certs : CertStore) (s : Cellar) (j : MsgId)
      → leb j.n h ≡ false
      → lookup j (drop_certs h certs s).cert_store ≡ lookup j s.cert_store
  unfolding drop_certs
  drop_certs-kept [] s j high = refl
  drop_certs-kept ((idx, cert) ∷ certs) s j high = elim (Bool-cases (leb idx.n h)) [
    | inl low ↦
        let other : msg_id_eq.beq idx j ≡ false = ground (arith, low, high) in
        rw (step_low idx cert certs s low) (
          drop_certs-kept certs (drop_cert idx cert s) j high
          ∙ lookup-drop_cert idx cert certs s j
          ∙ ap (λ b. if b then none else lookup j s.cert_store) other)
    | inr above ↦ rw (step_high idx cert certs s above) (drop_certs-kept certs s j high)
  ]

  drop_cert-none :
      (idx : MsgId) (cert : MsgCert) (certs : CertStore) (s : Cellar) (j : MsgId)
      → lookup j s.cert_store ≡ none
      → lookup j (drop_cert idx cert s).cert_store ≡ none
  drop_cert-none idx cert certs s j h = ground (arith, lookup-drop_cert idx cert certs s j, h)

  stays_away :
      (certs : CertStore) (s : Cellar) (j : MsgId)
      → lookup j s.cert_store ≡ none
      → lookup j (drop_certs h certs s).cert_store ≡ none
  unfolding drop_certs
  stays_away [] s j gone = gone
  stays_away ((idx, cert) ∷ certs) s j gone = elim (Bool-cases (leb idx.n h)) [
    | inl low ↦
        rw (step_low idx cert certs s low)
          (stays_away certs (drop_cert idx cert s) j (drop_cert-none idx cert certs s j gone))
    | inr high ↦ rw (step_high idx cert certs s high) (stays_away certs s j gone)
  ]

  pub drop_certs-gone :
      (certs : CertStore) (s : Cellar) (j : MsgId)
      → leb j.n h ≡ true
      → (lookup j certs ≡ none → lookup j s.cert_store ≡ none)
      → lookup j (drop_certs h certs s).cert_store ≡ none
  unfolding drop_certs
  drop_certs-gone [] s j low absent = absent (unfold lookup in refl)
  drop_certs-gone ((idx, cert) ∷ certs) s j low absent = elim (Bool-cases (msg_id_eq.beq idx j)) [
    | inl hit ↦
        let same : idx ≡ j = (msg_id_eq.beq_iff idx j).0 hit in
        let deleted =
          lookup-drop_cert idx cert certs s j
          ∙ ap (λ b. if b then none else lookup j s.cert_store) hit in
        rw (step_low idx cert certs s (ap (λ (i : MsgId). leb i.n h) same ∙ low))
          (stays_away certs (drop_cert idx cert s) j deleted)
    | inr miss ↦
        let before : lookup j certs ≡ none → lookup j s.cert_store ≡ none =
          λ none_later. absent (lookup_rest idx j cert certs miss ∙ none_later) in
        elim (Bool-cases (leb idx.n h)) [
          | inl low' ↦ rw (step_low idx cert certs s low') (
              drop_certs-gone certs (drop_cert idx cert s) j low
                (λ none_later. drop_cert-none idx cert certs s j (before none_later)))
          | inr high ↦ rw (step_high idx cert certs s high) (drop_certs-gone certs s j low before)
        ]
  ]

  pub lookup-drop_certs :
      (s : Cellar) (j : MsgId)
      → lookup j (drop_certs h s.cert_store s).cert_store
        ≡ (if leb j.n h then none else lookup j s.cert_store)
  lookup-drop_certs s j = elim (Bool-cases (leb j.n h)) [
    | inl low ↦ rw low (drop_certs-gone s.cert_store s j low (λ gone. gone))
    | inr high ↦ rw high (drop_certs-kept s.cert_store s j high)
  ]
