-- ===== src/Base/Keys.antt =====
-- Go's fmt.Sprintf("%d"), strings.Split and strconv.Atoi on texts, which the keys of the storage are
-- printed with and read by.
use Prim.Native.Nat.{ℕ, zero, suc, ◌+◌, ◌-◌, ◌*◌, ◌/◌, ◌%◌, ◌^◌, ◌<◌}
use Prim.Native.Char.{Char, code}
use Prim.Native.String.{String, ◌++◌}
use mathlib.Core.Path.{◌≡◌, refl, sym, ap, ◌∙◌}
use mathlib.Core.Logic.{inl, inr}
use mathlib.Core.Bool.{Bool, true, false, ◌&&◌}
use mathlib.Core.Option.{Option, none, some}
use mathlib.Core.List.{List, [], ◌∷◌}
use native.Mathlib.Nat.{pow-suc}
use native.Mathlib.Omega.{arith}
use text.Mathlib.TextLemmas.{nil-append, cons-append}
use go_hpc_rbft.Base.Tests.{◌==◌, leb, ltb, if◌then◌else◌, Bool-cases, ltb→lt}
use go_hpc_rbft.Base.Words.{word}

-- The character of a digit below 10.
unfoldable digit_char : ℕ → Char
digit_char zero = "0"
digit_char (suc zero) = "1"
digit_char (suc (suc zero)) = "2"
digit_char (suc (suc (suc zero))) = "3"
digit_char (suc (suc (suc (suc zero)))) = "4"
digit_char (suc (suc (suc (suc (suc zero))))) = "5"
digit_char (suc (suc (suc (suc (suc (suc zero)))))) = "6"
digit_char (suc (suc (suc (suc (suc (suc (suc zero))))))) = "7"
digit_char (suc (suc (suc (suc (suc (suc (suc (suc zero)))))))) = "8"
digit_char n = "9"

abbrev pub is_dot : Char → Bool
is_dot c = code c == b'.'

-- What `%d` prints for n, before the text `rest`; at most k digits.
unfoldable pub decimal : ℕ → ℕ → String → String
unfolding digit_char
decimal zero n rest = rest
decimal (suc k) n rest =
    let more = decimal k (n / 10) (String.◌∷◌ (digit_char (n % 10)) rest) in
    if ltb n 10 then String.◌∷◌ (digit_char n) rest else more

abbrev cons_head : Char → List String → List String
cons_head c [] = String.◌∷◌ c String.[] ∷ []
cons_head c (p ∷ ps) = String.◌∷◌ c p ∷ ps

-- strings.Split(s, ".")
unfoldable pub split : String → List String
split String.[] = String.[] ∷ []
split (String.◌∷◌ c s) =
    let rest = split s in if is_dot c then String.[] ∷ rest else cons_head c rest

unfoldable value : ℕ → String → Option ℕ
value acc String.[] = some acc
value acc (String.◌∷◌ c s) =
    let rest = value (acc * 10 + (code c - b'0')) s in
    if leb b'0' (code c) && leb (code c) b'9' then rest else none

unfoldable unsigned : String → Option ℕ
unfolding value
unsigned String.[] = none
unsigned (String.◌∷◌ c s) = value 0 (String.◌∷◌ c s)

-- The numbers that an int holds, as the uint64 that the code makes of them.
unfoldable non_negative : Option ℕ → Option ℕ
non_negative none = none
non_negative (some x) = if ltb x (2 ^ 63) then some x else none

unfoldable negative : Option ℕ → Option ℕ
negative none = none
negative (some x) = if leb x (2 ^ 63) then some ((word - x) % word) else none

-- strconv.Atoi and the conversion of its int to uint64; `none` where it returns an error.
unfoldable pub atoi : String → Option ℕ
unfolding unsigned non_negative negative
atoi String.[] = none
atoi (String.◌∷◌ c s) =
    if code c == b'-'
    then negative (unsigned s)
    else if code c == b'+'
    then non_negative (unsigned s)
    else non_negative (unsigned (String.◌∷◌ c s))

digit_char_lem : (n : ℕ) → n < 10 → code (digit_char n) ≡ b'0' + n
unfolding digit_char
digit_char_lem zero h = refl
digit_char_lem (suc zero) h = refl
digit_char_lem (suc (suc zero)) h = refl
digit_char_lem (suc (suc (suc zero))) h = refl
digit_char_lem (suc (suc (suc (suc zero)))) h = refl
digit_char_lem (suc (suc (suc (suc (suc zero))))) h = refl
digit_char_lem (suc (suc (suc (suc (suc (suc zero)))))) h = refl
digit_char_lem (suc (suc (suc (suc (suc (suc (suc zero))))))) h = refl
digit_char_lem (suc (suc (suc (suc (suc (suc (suc (suc zero)))))))) h = refl
digit_char_lem (suc (suc (suc (suc (suc (suc (suc (suc (suc zero))))))))) h = refl
digit_char_lem (suc (suc (suc (suc (suc (suc (suc (suc (suc (suc n)))))))))) h =
    absurd (omega arith)

digit_char_no_dot : (n : ℕ) → n < 10 → is_dot (digit_char n) ≡ false
digit_char_no_dot n h = ground (arith, digit_char_lem n h)

-- Text without a dot is one part.
abbrev pub DotFree : String → Type 0
DotFree String.[] = Unit
DotFree (String.◌∷◌ c s) = (is_dot c ≡ false) × DotFree s

pub split_dot :
    (s : String) (ps : List String) → split s ≡ ps → split (String.◌∷◌ "." s) ≡ String.[] ∷ ps
unfolding split
split_dot s ps h = ap (λ r. String.[] ∷ r) h

split_char :
    (c : Char) (s p : String) (ps : List String)
    → is_dot c ≡ false
    → split s ≡ p ∷ ps
    → split (String.◌∷◌ c s) ≡ String.◌∷◌ c p ∷ ps
unfolding split
split_char c s p ps plain h = rw (plain, h) refl

pub split-DotFree : (s : String) → DotFree s → split s ≡ s ∷ []
unfolding split
split-DotFree String.[] h = refl
split-DotFree (String.◌∷◌ c s) (plain, h) = split_char c s s [] plain (split-DotFree s h)

pub split-append :
    (t s p : String) (ps : List String)
    → DotFree t
    → split s ≡ p ∷ ps
    → split (t ++ s) ≡ (t ++ p) ∷ ps
split-append String.[] s p ps h e = rw (nil-append s, nil-append p) e
split-append (String.◌∷◌ c t) s p ps (plain, h) e =
    rw (cons-append c t s, cons-append c t p)
      (split_char c (t ++ s) (t ++ p) ps plain (split-append t s p ps h e))

pub split-decimal :
    (k n : ℕ) (s p : String) (ps : List String)
    → n < 10 ^ k
    → split s ≡ p ∷ ps
    → split (decimal k n s) ≡ decimal k n p ∷ ps
unfolding decimal
split-decimal zero n s p ps lt e = e
split-decimal (suc k) n s p ps lt e = elim (Bool-cases (ltb n 10)) [
  | inl small ↦
      rw small (split_char (digit_char n) s p ps (digit_char_no_dot n (ltb→lt n 10 small)) e)
  | inr large ↦ rw large (
      split-decimal k (n / 10) (String.◌∷◌ (digit_char (n % 10)) s)
        (String.◌∷◌ (digit_char (n % 10)) p) ps (omega (arith, pow-suc 10 k))
        (split_char (digit_char (n % 10)) s p ps (digit_char_no_dot (n % 10) (omega arith)) e))
]

value_char :
    (a : ℕ) (c : Char) (s : String)
    → (leb b'0' (code c) && leb (code c) b'9') ≡ true
    → value a (String.◌∷◌ c s) ≡ value (a * 10 + (code c - b'0')) s
unfolding value
value_char a c s h = rw h refl

value_digit :
    (a n : ℕ) (s : String) → n < 10 → value a (String.◌∷◌ (digit_char n) s) ≡ value (a * 10 + n) s
value_digit a n s h =
    let c : code (digit_char n) ≡ b'0' + n = digit_char_lem n h in
    value_char a (digit_char n) s (ground (arith, c)) ∙ ap (λ x. value x s) (omega (arith, c))

-- A number printed before a digit.
value-decimal_before :
    (k n d : ℕ) (s : String)
    → n < 10 ^ k
    → d < 10
    → value 0 (decimal k n (String.◌∷◌ (digit_char d) s)) ≡ value (n * 10 + d) s
unfolding decimal
value-decimal_before zero n d s lt h = value_digit 0 d s h ∙ ap (λ x. value x s) (omega arith)
value-decimal_before (suc k) n d s lt h = elim (Bool-cases (ltb n 10)) [
  | inl small ↦ rw small (
      value_digit 0 n (String.◌∷◌ (digit_char d) s) (ltb→lt n 10 small)
      ∙ value_digit (0 * 10 + n) d s h
      ∙ ap (λ x. value x s) (omega arith))
  | inr large ↦ rw large (
      value-decimal_before k (n / 10) (n % 10) (String.◌∷◌ (digit_char d) s)
        (omega (arith, pow-suc 10 k)) (omega arith)
      ∙ value_digit (n / 10 * 10 + n % 10) d s h
      ∙ ap (λ x. value x s) (omega arith))
]

value-decimal : (k n : ℕ) (s : String) → n < 10 ^ suc k → value 0 (decimal (suc k) n s) ≡ value n s
unfolding decimal
value-decimal k n s lt = elim (Bool-cases (ltb n 10)) [
  | inl small ↦ rw small (value_digit 0 n s (ltb→lt n 10 small) ∙ ap (λ x. value x s) (omega arith))
  | inr large ↦ rw large (
      value-decimal_before k (n / 10) (n % 10) s (omega (arith, pow-suc 10 k)) (omega arith)
      ∙ ap (λ x. value x s) (omega arith))
]

-- A text that begins with a digit.
abbrev DigitFirst : String → Type 0
DigitFirst s = (c : ℕ) × ((t : String) × ((c < 10) × (s ≡ String.◌∷◌ (digit_char c) t)))

decimal_before-DigitFirst :
    (k n d : ℕ) (s : String) → d < 10 → DigitFirst (decimal k n (String.◌∷◌ (digit_char d) s))
unfolding decimal
decimal_before-DigitFirst zero n d s h = (d, (s, (h, refl)))
decimal_before-DigitFirst (suc k) n d s h = elim (Bool-cases (ltb n 10)) [
  | inl small ↦ rw small (n, (String.◌∷◌ (digit_char d) s, (ltb→lt n 10 small, refl)))
  | inr large ↦
      rw large
        (decimal_before-DigitFirst k (n / 10) (n % 10) (String.◌∷◌ (digit_char d) s) (omega arith))
]

decimal-DigitFirst : (k n : ℕ) (s : String) → DigitFirst (decimal (suc k) n s)
unfolding decimal
decimal-DigitFirst k n s = elim (Bool-cases (ltb n 10)) [
  | inl small ↦ rw small (n, (s, (ltb→lt n 10 small, refl)))
  | inr large ↦ rw large (decimal_before-DigitFirst k (n / 10) (n % 10) s (omega arith))
]

atoi_digit :
    (c : ℕ) (t : String)
    → c < 10
    → atoi (String.◌∷◌ (digit_char c) t) ≡ non_negative (value 0 (String.◌∷◌ (digit_char c) t))
unfolding atoi
atoi_digit c t h = ground (arith, digit_char_lem c h)

-- What Atoi reads from a printed number.
pub atoi-decimal :
    (k n : ℕ)
    → n < 10 ^ suc k
    → atoi (decimal (suc k) n "") ≡ (if ltb n (2 ^ 63) then some n else none)
unfolding non_negative value
atoi-decimal k n lt =
    let (c, (t, (h, e))) = decimal-DigitFirst k n "" in
    ap atoi e
    ∙ atoi_digit c t h
    ∙ ap (λ s. non_negative (value 0 s)) (sym e)
    ∙ ap non_negative (value-decimal k n "" lt)
