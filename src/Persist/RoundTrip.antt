-- ===== src/Persist/RoundTrip.antt =====
-- The keys of persist.go and what is restored from them.
use text.Mathlib.TextLemmas.{append-nil}
use go_hpc_rbft.Base.{
  ◌^◌, ◌<◌, ◌≡◌, ap, ◌∙◌, inl, inr, [], ◌∷◌, String, if◌then◌else◌, ltb, eq_iff, arith, ◌&&◌,
}
use go_hpc_rbft.Base.Words.{word}
use go_hpc_rbft.Base.Keys.{
  split, DotFree, split_dot, split-DotFree, split-append, split-decimal, atoi-decimal,
}
use go_hpc_rbft.Certs.{MsgId}
use go_hpc_rbft.Persist.Read.{RestoreError, parse_qpc_key}
use go_hpc_rbft.Persist.{qpc_key, printed}

split-qpc_key :
    (prefix : String) (idx : MsgId)
    → DotFree prefix
    → idx.v < word
    → idx.n < word
    → DotFree idx.d
    → split (qpc_key prefix idx) ≡ prefix ∷ printed idx.v "" ∷ printed idx.n "" ∷ idx.d ∷ []
unfolding qpc_key
split-qpc_key prefix idx hp hv hn hd =
    split-append prefix _ "" _ hp (
      split_dot _ _ (
        split-decimal 20 idx.v _ "" _ (omega arith) (
          split_dot _ _ (
            split-decimal 20 idx.n _ "" _ (omega arith) (split_dot _ _ (split-DotFree idx.d hd))))))
    ∙ ap (λ p. p ∷ printed idx.v "" ∷ printed idx.n "" ∷ idx.d ∷ []) (append-nil prefix)

-- parseQPCKey reads the key of a msgID back as this msgID, when neither the prefix nor the digest
-- has a dot in it and view and number are below 2^63. When one of them is 2^63 or more, the key is
-- stored all the same, but it does not parse.
pub parse_qpc_key-qpc_key :
    (prefix : String) (idx : MsgId)
    → DotFree prefix
    → idx.v < word
    → idx.n < word
    → DotFree idx.d
    → parse_qpc_key (qpc_key prefix idx) prefix ≡ (
        if ltb idx.v (2 ^ 63) && ltb idx.n (2 ^ 63) then inr idx else inl RestoreError.parse_failed)
unfolding parse_qpc_key
parse_qpc_key-qpc_key prefix idx hp hv hn hd =
    let parts = split-qpc_key prefix idx hp hv hn hd in
    let v = atoi-decimal 19 idx.v (omega arith) in
    let n = atoi-decimal 19 idx.n (omega arith) in
    rw parts (ground (arith, eq_iff prefix prefix, v, n))
