-- ===== src/Status/Modes.antt =====
-- What `on`, `off` and their atomic kin do to every status, and when a node counts as normal.
use go_hpc_rbft.Base.{◌≡◌, refl, ◌∙◌, Bool, true, false, not, List, [], ◌∷◌, ◌&&◌, ◌||◌, arith, any}
use go_hpc_rbft.Status.Bits.{
  same, has_bit-set_bit, has_bit-clear_bit, atomic_has_bit-atomic_set_bit,
  atomic_has_bit-atomic_clear_bit,
}
use go_hpc_rbft.Status.{
  StatusType, StatusManager, normal, in_view_change, pending, skip_in_progress, position, set_bit,
  clear_bit, has_bit, atomic_set_bit, atomic_clear_bit, atomic_has_bit, on, off, atomic_on,
  atomic_off, atomic_in_one, set_normal, maybe_set_normal, is_normal,
}

abbrev pub listed : List StatusType → StatusType → Bool
listed ts u = any (λ t. same t u) ts

pub on_lem :
    (st : StatusManager) (ts : List StatusType) (u : StatusType)
    → has_bit (on st ts) u ≡ (listed ts u || has_bit st u)
unfolding on
on_lem st [] u = refl
on_lem st (t ∷ ts) u = ground (arith, on_lem (set_bit st t) ts u, has_bit-set_bit st t u)

pub off_lem :
    (st : StatusManager) (ts : List StatusType) (u : StatusType)
    → has_bit (off st ts) u ≡ (not (listed ts u) && has_bit st u)
unfolding off
off_lem st [] u = refl
off_lem st (t ∷ ts) u = ground (arith, off_lem (clear_bit st t) ts u, has_bit-clear_bit st t u)

pub atomic_on_lem :
    (st : StatusManager) (ts : List StatusType) (u : StatusType)
    → atomic_has_bit (atomic_on st ts) u ≡ (listed ts u || atomic_has_bit st u)
unfolding atomic_on
atomic_on_lem st [] u = refl
atomic_on_lem st (t ∷ ts) u =
    ground (arith, atomic_on_lem (atomic_set_bit st t) ts u, atomic_has_bit-atomic_set_bit st t u)

pub atomic_off_lem :
    (st : StatusManager) (ts : List StatusType) (u : StatusType)
    → atomic_has_bit (atomic_off st ts) u ≡ (not (listed ts u) && atomic_has_bit st u)
unfolding atomic_off
atomic_off_lem st [] u = refl
atomic_off_lem st (t ∷ ts) u =
    ground
      (arith, atomic_off_lem (atomic_clear_bit st t) ts u, atomic_has_bit-atomic_clear_bit st t u)

-- `on` and `off` never touch the atomic word, their atomic kin never the other one.
atomic-on :
    (st : StatusManager) (ts : List StatusType) → (on st ts).atomic_status ≡ st.atomic_status
unfolding on set_bit
atomic-on st [] = refl
atomic-on st (t ∷ ts) = atomic-on (set_bit st t) ts

atomic-off :
    (st : StatusManager) (ts : List StatusType) → (off st ts).atomic_status ≡ st.atomic_status
unfolding off clear_bit
atomic-off st [] = refl
atomic-off st (t ∷ ts) = atomic-off (clear_bit st t) ts

status-atomic_on :
    (st : StatusManager) (ts : List StatusType) → (atomic_on st ts).status ≡ st.status
unfolding atomic_on atomic_set_bit
status-atomic_on st [] = refl
status-atomic_on st (t ∷ ts) = status-atomic_on (atomic_set_bit st t) ts

status-atomic_off :
    (st : StatusManager) (ts : List StatusType) → (atomic_off st ts).status ≡ st.status
unfolding atomic_off atomic_clear_bit
status-atomic_off st [] = refl
status-atomic_off st (t ∷ ts) = status-atomic_off (atomic_clear_bit st t) ts

atomic_has_bit-on :
    (st : StatusManager) (ts : List StatusType) (u : StatusType)
    → atomic_has_bit (on st ts) u ≡ atomic_has_bit st u
unfolding atomic_has_bit
atomic_has_bit-on st ts u = rw (atomic-on st ts)

-- Turning a set of statuses on and later another set off leaves, in either status word, exactly the
-- statuses that were on before or are in the first set, and are not in the second. `on` followed by
-- `off` leaves the atomic word as it was, atomicOn followed by atomicOff the other word.
pub off-on :
    (st : StatusManager) (ts us : List StatusType) (u : StatusType)
    → (has_bit (off (on st ts) us) u ≡ (not (listed us u) && (listed ts u || has_bit st u)))
      × (atomic_has_bit (atomic_off (atomic_on st ts) us) u
          ≡ (not (listed us u) && (listed ts u || atomic_has_bit st u)))
      × ((off (on st ts) us).atomic_status ≡ st.atomic_status)
      × ((atomic_off (atomic_on st ts) us).status ≡ st.status)
      × (atomic_has_bit (on st ts) u ≡ atomic_has_bit st u)
off-on st ts us u = (
  rw (off_lem (on st ts) us u, on_lem st ts u),
  rw (atomic_off_lem (atomic_on st ts) us u, atomic_on_lem st ts u),
  atomic-off (on st ts) us ∙ atomic-on st ts,
  status-atomic_off (atomic_on st ts) us ∙ status-atomic_on st ts,
  atomic_has_bit-on st ts u,
)

-- After maybeSetNormal a node is normal exactly when it was so before, or none of InViewChange,
-- Pending and SkipInProgress is set in the atomic word.
pub is_normal-maybe_set_normal :
    (st : StatusManager)
    → is_normal (maybe_set_normal st) ≡ (
        is_normal st
        || not (
            atomic_has_bit st in_view_change
            || (atomic_has_bit st pending || atomic_has_bit st skip_in_progress)))
unfolding is_normal maybe_set_normal atomic_in_one set_normal position
is_normal-maybe_set_normal st = ground (arith, on_lem st (normal ∷ []) normal)

-- maybeSetNormal switches nothing off.
has_bit-maybe_set_normal :
    (st : StatusManager) (u : StatusType)
    → has_bit st u ≡ true
    → has_bit (maybe_set_normal st) u ≡ true
unfolding maybe_set_normal set_normal
has_bit-maybe_set_normal st u h = ground (arith, on_lem st (normal ∷ []) u)

-- SkipInProgress is switched by `on`, which maybeSetNormal does not read: a node that has just
-- begun a state transfer, and is neither in a view change nor pending, is set to normal with
-- SkipInProgress still on.
pub maybe_set_normal_in_transfer :
    (st : StatusManager)
    → atomic_has_bit st in_view_change ≡ false
    → atomic_has_bit st pending ≡ false
    → atomic_has_bit st skip_in_progress ≡ false
    → let after = maybe_set_normal (on st (skip_in_progress ∷ [])) in
      (is_normal after ≡ true) × (has_bit after skip_in_progress ≡ true)
unfolding position
maybe_set_normal_in_transfer st v p s =
    let busy = on st (skip_in_progress ∷ []) in
    ground (
      arith,
      is_normal-maybe_set_normal busy,
      has_bit-maybe_set_normal busy skip_in_progress,
      on_lem st (skip_in_progress ∷ []) skip_in_progress,
      atomic_has_bit-on st (skip_in_progress ∷ []) in_view_change,
      atomic_has_bit-on st (skip_in_progress ∷ []) pending,
      atomic_has_bit-on st (skip_in_progress ∷ []) skip_in_progress,
    )
