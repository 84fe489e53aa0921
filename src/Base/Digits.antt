-- ===== src/Base/Digits.antt =====
-- The binary digits of `|`, `&` and `^`, from the recursion that the native operations stand for.
use Prim.Native.Nat.{
  ℕ, zero, suc, ◌+◌, ◌-◌, ◌*◌, ◌/◌, ◌%◌, ◌^◌, ◌≤◌, ◌<◌, min, max, bit_and, bit_or, bit_xor, digits,
  differ, bit_and-bitwise, bit_or-bitwise, bit_xor-bitwise,
}
use mathlib.Core.Path.{◌≡◌, refl, sym, ap, ◌∙◌}
use native.Mathlib.Nat.{pow-suc}
use native.Mathlib.Omega.{arith}
use go_hpc_rbft.Base.Tests.{◌==◌, ltb, if◌then◌else◌}

-- The digit of `a` at a position, lowest first.
abbrev pub digit : ℕ → ℕ → ℕ
digit a zero = a % 2
digit a (suc q) = digit (a / 2) q

-- `digits` from a run-out value and a digit rule that agree on the lowest digit.
module _ (out : ℕ → ℕ) (rule : ℕ → ℕ → ℕ)
    (agree : (y : ℕ) → out y ≡ out (y / 2) * 2 + rule 0 (y % 2)) where
  spare_fuel : (s x y : ℕ) → x ≤ s → digits out rule (suc s) x y ≡ digits out rule s x y
  spare_fuel s zero y le = by_fuel s
    where
      by_fuel : (t : ℕ) → digits out rule (suc t) zero y ≡ digits out rule t zero y
      by_fuel zero = refl
      by_fuel (suc t) = refl
  spare_fuel zero (suc x) y le = absurd (omega arith)
  spare_fuel (suc s) (suc x) y le = omega (arith, spare_fuel s (suc x / 2) (y / 2) (omega arith))

  least_fuel : (k x y : ℕ) → digits out rule (x + k) x y ≡ digits out rule x x y
  least_fuel zero x y =
      let none_left : x + 0 ≡ x = omega arith in ap (λ s. digits out rule s x y) none_left
  least_fuel (suc k) x y =
      let one_more : x + suc k ≡ suc (x + k) = omega arith in
      ap (λ s. digits out rule s x y) one_more
      ∙ spare_fuel (x + k) x y (omega arith)
      ∙ least_fuel k x y

  digits_halved :
      (x y : ℕ)
      → digits out rule x x y ≡ digits out rule (x / 2) (x / 2) (y / 2) * 2 + rule (x % 2) (y % 2)
  digits_halved zero y = agree y
  digits_halved (suc x) y =
      let half = suc x / 2 in
      let split : half + (x - half) ≡ x = omega arith in
      omega
        (arith, least_fuel (x - half) half (y / 2), ap (λ s. digits out rule s half (y / 2)) split)

pub bit_and_halved : (x y : ℕ) → bit_and x y ≡ bit_and (x / 2) (y / 2) * 2 + min (x % 2) (y % 2)
bit_and_halved x y =
    bit_and-bitwise x y
    ∙ digits_halved (λ _. zero) min (λ _. omega arith) x y
    ∙ ap (λ r. r * 2 + min (x % 2) (y % 2)) (sym (bit_and-bitwise (x / 2) (y / 2)))

pub bit_or_halved : (x y : ℕ) → bit_or x y ≡ bit_or (x / 2) (y / 2) * 2 + max (x % 2) (y % 2)
bit_or_halved x y =
    bit_or-bitwise x y
    ∙ digits_halved (λ y. y) max (λ y. omega arith) x y
    ∙ ap (λ r. r * 2 + max (x % 2) (y % 2)) (sym (bit_or-bitwise (x / 2) (y / 2)))

pub bit_xor_halved : (x y : ℕ) → bit_xor x y ≡ bit_xor (x / 2) (y / 2) * 2 + differ (x % 2) (y % 2)
bit_xor_halved x y =
    bit_xor-bitwise x y
    ∙ digits_halved (λ y. y) differ (λ y. omega arith) x y
    ∙ ap (λ r. r * 2 + differ (x % 2) (y % 2)) (sym (bit_xor-bitwise (x / 2) (y / 2)))

differ-lt : (a b : ℕ) → a < 2 → b < 2 → differ a b < 2
differ-lt zero b h k = k
differ-lt (suc zero) zero h k = omega arith
differ-lt (suc zero) (suc zero) h k = omega arith
differ-lt (suc zero) (suc (suc b)) h k = absurd (omega arith)
differ-lt (suc (suc a)) b h k = absurd (omega arith)

-- A digit of the result is the operation on the two digits.
pub digit-bit_and : (q a b : ℕ) → digit (bit_and a b) q ≡ min (digit a q) (digit b q)
digit-bit_and zero a b = omega (arith, bit_and_halved a b)
digit-bit_and (suc q) a b =
    let halved : bit_and a b / 2 ≡ bit_and (a / 2) (b / 2) = omega (arith, bit_and_halved a b) in
    rw halved (digit-bit_and q (a / 2) (b / 2))

pub digit-bit_or : (q a b : ℕ) → digit (bit_or a b) q ≡ max (digit a q) (digit b q)
digit-bit_or zero a b = omega (arith, bit_or_halved a b)
digit-bit_or (suc q) a b =
    let halved : bit_or a b / 2 ≡ bit_or (a / 2) (b / 2) = omega (arith, bit_or_halved a b) in
    rw halved (digit-bit_or q (a / 2) (b / 2))

pub digit-bit_xor : (q a b : ℕ) → digit (bit_xor a b) q ≡ differ (digit a q) (digit b q)
digit-bit_xor zero a b =
    omega (arith, bit_xor_halved a b, differ-lt (a % 2) (b % 2) (omega arith) (omega arith))
digit-bit_xor (suc q) a b =
    let halved : bit_xor a b / 2 ≡ bit_xor (a / 2) (b / 2) =
      omega (arith, bit_xor_halved a b, differ-lt (a % 2) (b % 2) (omega arith) (omega arith)) in
    rw halved (digit-bit_xor q (a / 2) (b / 2))

pub digit-le : (q a : ℕ) → digit a q ≤ 1
digit-le zero a = omega arith
digit-le (suc q) a = digit-le q (a / 2)

digit-zero : (q : ℕ) → digit 0 q ≡ 0
digit-zero zero = refl
digit-zero (suc q) = digit-zero q

digit-one : (q : ℕ) → digit 1 (suc q) ≡ 0
digit-one q = digit-zero q

pub digit-pow : (p q : ℕ) → digit (2 ^ p) q ≡ (if p == q then 1 else 0)
digit-pow zero zero = refl
digit-pow zero (suc q) = ground (arith, digit-one q)
digit-pow (suc p) zero = ground (arith, pow-suc 2 p)
digit-pow (suc p) (suc q) =
    let halved : 2 ^ suc p / 2 ≡ 2 ^ p = omega (arith, pow-suc 2 p) in
    rw halved (ground (arith, digit-pow p q))

no_digits : (x : ℕ) → bit_and x 0 ≡ 0
no_digits x = below x x (omega arith)
  where
    below : (s x : ℕ) → x ≤ s → bit_and x 0 ≡ 0
    below s zero le = refl
    below zero (suc x) le = absurd (omega arith)
    below (suc s) (suc x) le =
        omega (arith, bit_and_halved (suc x) 0, below s (suc x / 2) (omega arith))

-- `a & (1 << p)` picks one digit.
pub bit_and-pow : (p a : ℕ) → bit_and a (2 ^ p) ≡ digit a p * 2 ^ p
bit_and-pow zero a = omega (arith, bit_and_halved a 1, no_digits (a / 2))
bit_and-pow (suc p) a =
    let halved : 2 ^ suc p / 2 ≡ 2 ^ p = omega (arith, pow-suc 2 p) in
    let first : bit_and a (2 ^ suc p) ≡ bit_and (a / 2) (2 ^ suc p / 2) * 2 =
      omega (arith, bit_and_halved a (2 ^ suc p), pow-suc 2 p) in
    let step : bit_and a (2 ^ suc p) ≡ digit (a / 2) p * 2 ^ p * 2 =
      first ∙ rw (halved, bit_and-pow p (a / 2)) in
    rw (step, pow-suc 2 p) (grind arith)

pub pos-pow : (p : ℕ) → 0 < 2 ^ p
pos-pow zero = omega arith
pos-pow (suc p) = omega (arith, pos-pow p, pow-suc 2 p)

pub ltb-bit_and-pow : (p a : ℕ) → ltb 0 (bit_and a (2 ^ p)) ≡ (digit a p == 1)
ltb-bit_and-pow p a = rw (bit_and-pow p a) (by_digit (digit a p) (digit-le p a))
  where
    by_digit : (d : ℕ) → d ≤ 1 → ltb 0 (d * 2 ^ p) ≡ (d == 1)
    by_digit zero h = ground arith
    by_digit (suc zero) h = ground (arith, pos-pow p)
    by_digit (suc (suc d)) h = absurd (omega arith)

-- Every digit of a 32-bit mask of ones is 1.
pub digit_ones : (q : ℕ) → q < 32 → digit 0xffff_ffff q ≡ 1
digit_ones q h = ones 32 q h
  where
    halves : (n : ℕ) → (2 ^ suc n - 1) / 2 ≡ 2 ^ n - 1
    halves n = omega (arith, pow-suc 2 n, pos-pow n)

    ones : (n q : ℕ) → q < n → digit (2 ^ n - 1) q ≡ 1
    ones zero q h = elim h [ ]
    ones (suc n) zero h = omega (arith, pow-suc 2 n, pos-pow n)
    ones (suc n) (suc q) h = rw (halves n) (ones n q (omega arith))
