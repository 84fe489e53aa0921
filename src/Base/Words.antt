-- ===== src/Base/Words.antt =====
-- Go's fixed-width unsigned arithmetic, with its wrap-around written out.
use Prim.Native.Nat.{ℕ, ◌+◌, ◌-◌, ◌*◌, ◌%◌, ◌^◌, ◌≤◌, ◌<◌}
use mathlib.Core.Path.{◌≡◌}
use native.Mathlib.Omega.{arith}

abbrev pub word : ℕ
word = 2 ^ 64

infixl 65 ◌+ᵤ◌ ◌-ᵤ◌
infixl 70 ◌*ᵤ◌
abbrev pub ◌+ᵤ◌ : ℕ → ℕ → ℕ
a +ᵤ b = (a + b) % word

-- `-` on ℕ stops at 0, so the modulus is added first.
abbrev pub ◌-ᵤ◌ : ℕ → ℕ → ℕ
a -ᵤ b = (a + word - b % word) % word

abbrev pub ◌*ᵤ◌ : ℕ → ℕ → ℕ
a *ᵤ b = a * b % word

pub +ᵤ_exact : (a b : ℕ) → a + b < word → a +ᵤ b ≡ a + b
+ᵤ_exact a b h = omega arith

pub -ᵤ_exact : (a b : ℕ) → b ≤ a → a < word → a -ᵤ b ≡ a - b
-ᵤ_exact a b h k = omega arith
