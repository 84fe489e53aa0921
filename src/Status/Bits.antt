-- ===== src/Status/Bits.antt =====
-- What a test of one position says after another position is set or cleared.
use Prim.Native.Nat.{bit_and, bit_or, bit_xor}
use native.Mathlib.Nat.{pow-le-pow_right}
use go_hpc_rbft.Base.{
  ℕ, ◌-◌, ◌^◌, ◌<◌, ◌≤◌, ◌≡◌, refl, Bool, true, false, List, [], ◌∷◌, some, arith, ◌==◌, ==_iff,
  if◌then◌else◌, get_elem?,
}
use go_hpc_rbft.Base.Digits.{
  digit, digit-le, digit-bit_and, digit-bit_or, digit-bit_xor, digit-pow, ltb-bit_and-pow,
  digit_ones,
}
use go_hpc_rbft.Status.{
  StatusType, normal, in_conf_change, in_view_change, in_recovery, state_transferring, pending,
  stopped, inconsistent, in_sync_state, need_sync_state, skip_in_progress, byzantine,
  in_epoch_syncing, wait_checkpoint_batch_execute, wait_checkpoint_finished, position,
  StatusManager, bit, word_set, word_clear, word_has, set_bit, clear_bit, has_bit, atomic_set_bit,
  atomic_clear_bit, atomic_has_bit,
}

-- Every position lies within a uint32.
pub position-lt : (t : StatusType) → position t < 32
unfolding position
position-lt StatusType.normal = omega arith
position-lt _ = omega arith

bit-eq : (p : ℕ) → p < 32 → bit p ≡ 2 ^ p
unfolding bit
bit-eq p h =
    let small : 2 ^ p ≤ 2 ^ 31 = pow-le-pow_right (omega arith) {j = 31} (omega arith) in
    omega arith

word_has-digit : (w p : ℕ) → p < 32 → word_has w p ≡ (digit w p == 1)
unfolding word_has
word_has-digit w p h = rw (bit-eq p h) (ltb-bit_and-pow p w)

pub word_has-set :
    (w p q : ℕ)
    → p < 32
    → q < 32
    → word_has (word_set w p) q ≡ (if p == q then true else word_has w q)
unfolding word_set
word_has-set w p q hp hq =
    rw (bit-eq p hp, word_has-digit (bit_or w (2 ^ p)) q hq, word_has-digit w q hq)
      (ground (arith, digit-bit_or q w (2 ^ p), digit-pow p q, digit-le q w))

pub word_has-clear :
    (w p q : ℕ)
    → p < 32
    → q < 32
    → word_has (word_clear w p) q ≡ (if p == q then false else word_has w q)
unfolding word_clear
word_has-clear w p q hp hq =
    rw
      (
        bit-eq p hp,
        word_has-digit (bit_and w (bit_xor 0xffff_ffff (2 ^ p))) q hq,
        word_has-digit w q hq,
      )
      (ground (
        arith,
        digit-bit_and q w (bit_xor 0xffff_ffff (2 ^ p)),
        digit-bit_xor q 0xffff_ffff (2 ^ p),
        digit_ones q hq,
        digit-pow p q,
        digit-le q w,
      ))

abbrev statuses : List StatusType
statuses =
    normal ∷ in_conf_change ∷ in_view_change ∷ in_recovery ∷ state_transferring ∷ pending ∷ stopped
    ∷ inconsistent ∷ in_sync_state ∷ need_sync_state ∷ skip_in_progress ∷ byzantine
    ∷ in_epoch_syncing ∷ wait_checkpoint_batch_execute ∷ wait_checkpoint_finished ∷ []

position-inverse : (t : StatusType) → get_elem? statuses (position t - 1) ≡ some t
unfolding position
position-inverse StatusType.normal = refl
position-inverse _ = refl

-- Two positions are equal only for one status.
pub position-injective : (t u : StatusType) → position t ≡ position u → t ≡ u
position-injective t u h = cc (position-inverse t, position-inverse u, h)

abbrev pub same : StatusType → StatusType → Bool
same t u = position t == position u

pub same-true : (t u : StatusType) → same t u ≡ true → t ≡ u
same-true t u h = position-injective t u ((==_iff _ _).0 h)

pub has_bit-set_bit :
    (st : StatusManager) (t u : StatusType)
    → has_bit (set_bit st t) u ≡ (if same t u then true else has_bit st u)
unfolding has_bit set_bit
has_bit-set_bit st t u =
    word_has-set st.status (position t) (position u) (position-lt t) (position-lt u)

pub has_bit-clear_bit :
    (st : StatusManager) (t u : StatusType)
    → has_bit (clear_bit st t) u ≡ (if same t u then false else has_bit st u)
unfolding has_bit clear_bit
has_bit-clear_bit st t u =
    word_has-clear st.status (position t) (position u) (position-lt t) (position-lt u)

pub atomic_has_bit-atomic_set_bit :
    (st : StatusManager) (t u : StatusType)
    → atomic_has_bit (atomic_set_bit st t) u ≡ (if same t u then true else atomic_has_bit st u)
unfolding atomic_has_bit atomic_set_bit
atomic_has_bit-atomic_set_bit st t u =
    word_has-set st.atomic_status (position t) (position u) (position-lt t) (position-lt u)

pub atomic_has_bit-atomic_clear_bit :
    (st : StatusManager) (t u : StatusType)
    → atomic_has_bit (atomic_clear_bit st t) u ≡ (if same t u then false else atomic_has_bit st u)
unfolding atomic_has_bit atomic_clear_bit
atomic_has_bit-atomic_clear_bit st t u =
    word_has-clear st.atomic_status (position t) (position u) (position-lt t) (position-lt u)
