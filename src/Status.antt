-- ===== src/Status.antt =====
-- status_mgr.go: the two status words of a node and the tests on them. A position is a number as in
-- the source's constants; logging and gauges are left out.
pub mod Bits
pub mod Modes
pub mod Cas
use Prim.Native.Nat.{bit_and, bit_or, bit_xor}
use go_hpc_rbft.Base.{
  ℕ, ◌+◌, ◌%◌, ◌^◌, Bool, true, false, not, ◌||◌, List, [], ◌∷◌, ltb, if◌then◌else◌,
}

-- StatusType, in the order of its constants, which start at 1.
pub data StatusType : Type 0 where
  normal in_conf_change in_view_change in_recovery state_transferring pending stopped : StatusType
  inconsistent in_sync_state need_sync_state skip_in_progress byzantine in_epoch_syncing :
      StatusType
  wait_checkpoint_batch_execute wait_checkpoint_finished : StatusType

unfoldable pub position : StatusType → ℕ
position normal = 1
position in_conf_change = 2
position in_view_change = 3
position in_recovery = 4
position state_transferring = 5
position pending = 6
position stopped = 7
position inconsistent = 8
position in_sync_state = 9
position need_sync_state = 10
position skip_in_progress = 11
position byzantine = 12
position in_epoch_syncing = 13
position wait_checkpoint_batch_execute = 14
position wait_checkpoint_finished = 15

pub record StatusManager : Type 0 where
  pub status : ℕ  -- uint32
  pub atomic_status : ℕ  -- uint32

-- `1 << position` in a uint32.
unfoldable pub bit : ℕ → ℕ
bit p = 2 ^ p % 2 ^ 32

-- `w | 1<<p`, `w &^ (1<<p)` and `w & (1<<p) > 0` on a uint32.
unfoldable pub word_set : ℕ → ℕ → ℕ
unfolding bit
word_set w p = bit_or w (bit p)

unfoldable pub word_clear : ℕ → ℕ → ℕ
unfolding bit
word_clear w p = bit_and w (bit_xor 0xffff_ffff (bit p))

unfoldable pub word_has : ℕ → ℕ → Bool
unfolding bit
word_has w p = ltb 0 (bit_and w (bit p))

unfoldable pub new_status_mgr : StatusManager
new_status_mgr = record { status = 0; atomic_status = 0 }

unfoldable pub reset : StatusManager → StatusManager
reset st = record st { status = 0; atomic_status = 0 }

unfoldable pub set_bit : StatusManager → StatusType → StatusManager
set_bit st t = record st { status = word_set st.status (position t) }

unfoldable pub clear_bit : StatusManager → StatusType → StatusManager
clear_bit st t = record st { status = word_clear st.status (position t) }

unfoldable pub has_bit : StatusManager → StatusType → Bool
has_bit st t = word_has st.status (position t)

-- The word that atomicSetBit leaves; `Status.Cas` has its compare-and-swap loop.
unfoldable pub atomic_set_bit : StatusManager → StatusType → StatusManager
atomic_set_bit st t = record st { atomic_status = word_set st.atomic_status (position t) }

unfoldable pub atomic_clear_bit : StatusManager → StatusType → StatusManager
atomic_clear_bit st t = record st { atomic_status = word_clear st.atomic_status (position t) }

unfoldable pub atomic_has_bit : StatusManager → StatusType → Bool
atomic_has_bit st t = word_has st.atomic_status (position t)

unfoldable pub on : StatusManager → List StatusType → StatusManager
on st [] = st
on st (t ∷ ts) = on (set_bit st t) ts

unfoldable pub off : StatusManager → List StatusType → StatusManager
off st [] = st
off st (t ∷ ts) = off (clear_bit st t) ts

unfoldable pub atomic_on : StatusManager → List StatusType → StatusManager
atomic_on st [] = st
atomic_on st (t ∷ ts) = atomic_on (atomic_set_bit st t) ts

unfoldable pub atomic_off : StatusManager → List StatusType → StatusManager
atomic_off st [] = st
atomic_off st (t ∷ ts) = atomic_off (atomic_clear_bit st t) ts

-- The loop `rs = rs || atomicIn(pos)`.
unfoldable pub atomic_in_one : StatusManager → List StatusType → Bool
atomic_in_one st [] = false
atomic_in_one st (t ∷ ts) = atomic_has_bit st t || atomic_in_one st ts

unfoldable pub set_normal : StatusManager → StatusManager
set_normal st = on st (normal ∷ [])

unfoldable pub maybe_set_normal : StatusManager → StatusManager
maybe_set_normal st =
    if not (atomic_in_one st (in_view_change ∷ pending ∷ skip_in_progress ∷ []))
    then set_normal st
    else st

unfoldable pub is_normal : StatusManager → Bool
is_normal st = has_bit st normal

unfoldable pub init_status : StatusManager → StatusManager
init_status st = atomic_on (reset st) (pending ∷ [])

-- The `switch` of getStatus; `none` is its status 0.
pub data Reported : Type 0 where
  reported : StatusType → Reported
  not_normal : Reported

unfoldable pub get_status : StatusManager → Reported
get_status st =
    if atomic_has_bit st in_conf_change
    then reported in_conf_change
    else if atomic_has_bit st in_epoch_syncing
    then reported in_conf_change
    else if atomic_has_bit st in_recovery
    then reported in_recovery
    else if atomic_has_bit st in_view_change
    then reported in_view_change
    else if atomic_has_bit st state_transferring
    then reported state_transferring
    else if atomic_has_bit st pending
    then reported pending
    else if has_bit st normal
    then reported normal
    else not_normal
