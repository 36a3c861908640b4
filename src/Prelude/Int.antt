-- ===== src/Prelude/Int.antt =====
-- Signed integers over the native numbers, and the wrap-around of Go's int32 and int64.
-- Sums and orders go through the two parts of an integer, which are numbers that `omega` reads.
use Prim.Native.Nat.{ℕ, suc, ◌+◌, ◌-◌, ◌*◌, ◌/◌, ◌%◌, ◌≤◌, ◌<◌}
use mathlib.Core.Path.{◌≡◌, ◌∙◌, ap, sym}
use mathlib.Core.Bool.{Bool}
use native.Mathlib.Omega.{arith}
use ovro.Prelude.Tests.{◌==◌, ltb, leb, if◌then◌else◌}

-- `negsuc n` is -(n + 1).
pub data ℤ : Type 0 where
  pos : ℕ → ℤ
  negsuc : ℕ → ℤ

abbrev pub pos_part : ℤ → ℕ
pos_part (pos n) = n
pos_part (negsuc n) = 0

abbrev pub neg_part : ℤ → ℕ
neg_part (pos n) = 0
neg_part (negsuc n) = suc n

-- a - b, as an integer.
abbrev pub sub_ℕ : ℕ → ℕ → ℤ
sub_ℕ a b = if leb b a then pos (a - b) else negsuc (b - a - 1)

infixl 65 ◌+ℤ◌ ◌-ℤ◌
infixl 70 ◌*ℤ◌
infix 50 ◌≤ℤ◌ ◌<ℤ◌
unfoldable pub ◌+ℤ◌ : ℤ → ℤ → ℤ
a +ℤ b = sub_ℕ (pos_part a + pos_part b) (neg_part a + neg_part b)

unfoldable pub ◌-ℤ◌ : ℤ → ℤ → ℤ
a -ℤ b = sub_ℕ (pos_part a + neg_part b) (neg_part a + pos_part b)

unfoldable pub ◌*ℤ◌ : ℤ → ℤ → ℤ
a *ℤ b =
    sub_ℕ (pos_part a * pos_part b + neg_part a * neg_part b)
      (pos_part a * neg_part b + neg_part a * pos_part b)

abbrev pub ◌≤ℤ◌ : ℤ → ℤ → Type 0
a ≤ℤ b = pos_part a + neg_part b ≤ pos_part b + neg_part a

abbrev pub ◌<ℤ◌ : ℤ → ℤ → Type 0
a <ℤ b = pos_part a + neg_part b < pos_part b + neg_part a

abbrev pub ltb_ℤ : ℤ → ℤ → Bool
ltb_ℤ a b = ltb (pos_part a + neg_part b) (pos_part b + neg_part a)

abbrev pub leb_ℤ : ℤ → ℤ → Bool
leb_ℤ a b = leb (pos_part a + neg_part b) (pos_part b + neg_part a)

pub +ℤ_parts :
    (a b : ℤ)
    → pos_part (a +ℤ b) + neg_part a + neg_part b ≡ neg_part (a +ℤ b) + pos_part a + pos_part b
unfolding ◌+ℤ◌
+ℤ_parts a b = ground arith

pub -ℤ_parts :
    (a b : ℤ)
    → pos_part (a -ℤ b) + neg_part a + pos_part b ≡ neg_part (a -ℤ b) + pos_part a + neg_part b
unfolding ◌-ℤ◌
-ℤ_parts a b = ground arith

pub eq_of_parts : (a b : ℤ) → pos_part a + neg_part b ≡ pos_part b + neg_part a → a ≡ b
eq_of_parts a b h = ground arith

pub ruleset int_laws = (arith, +ℤ_parts, -ℤ_parts, eq_of_parts)

-- Go's `/` on integers truncates towards 0. The divisor is positive wherever it is used.
unfoldable pub quot : ℤ → ℕ → ℤ
quot (pos n) d = pos (n / d)
quot (negsuc n) d = sub_ℕ 0 (suc n / d)

-- The residue of an integer modulo a positive number.
abbrev residue : ℤ → ℕ → ℕ
residue (pos n) m = n % m
residue (negsuc n) m = (m - 1) - n % m

-- Two's complement: the value that an int32 or an int64 variable holds after an overflow.
unfoldable pub wrap32 : ℤ → ℤ
wrap32 a =
    let r = residue a 4294967296 in if ltb r 2147483648 then pos r else negsuc (4294967295 - r)

unfoldable pub wrap64 : ℤ → ℤ
wrap64 a =
    let r = residue a 18446744073709551616 in
    if ltb r 9223372036854775808 then pos r else negsuc (18446744073709551615 - r)

-- The values of an int32.
pub record IsInt32 (a : ℤ) : Type 0 where
  pub from_below : pos_part a < 2147483648
  pub from_above : neg_part a ≤ 2147483648

-- Nothing wraps while the value is in range.
pub wrap32_of_IsInt32 : (a : ℤ) → IsInt32 a → wrap32 a ≡ a
unfolding wrap32
wrap32_of_IsInt32 (pos n) h = ground arith
wrap32_of_IsInt32 (negsuc n) h = ground arith

-- Whatever is stored in an int32 is in range.
pub wrap32-IsInt32 : (a : ℤ) → IsInt32 (wrap32 a)
unfolding wrap32
wrap32-IsInt32 (pos n) = ground arith
wrap32-IsInt32 (negsuc n) = ground arith

abbrev pub eqb_ℤ : ℤ → ℤ → Bool
eqb_ℤ a b = pos_part a + neg_part b == pos_part b + neg_part a

-- A sum that wraps at every step is the sum that wraps once.
pub wrap32-+ℤ : (a b : ℤ) → wrap32 (wrap32 a +ℤ b) ≡ wrap32 (a +ℤ b)
unfolding wrap32 ◌+ℤ◌
wrap32-+ℤ (pos a) (pos b) = ground arith
wrap32-+ℤ (pos a) (negsuc b) = ground arith
wrap32-+ℤ (negsuc a) (pos b) = ground arith
wrap32-+ℤ (negsuc a) (negsuc b) = ground arith

pub wrap64-+ℤ : (a b : ℤ) → wrap64 (wrap64 a +ℤ b) ≡ wrap64 (a +ℤ b)
unfolding wrap64 ◌+ℤ◌
wrap64-+ℤ (pos a) (pos b) = ground arith
wrap64-+ℤ (pos a) (negsuc b) = ground arith
wrap64-+ℤ (negsuc a) (pos b) = ground arith
wrap64-+ℤ (negsuc a) (negsuc b) = ground arith

-- Summands change places.
pub +ℤ-swap : (a b c : ℤ) → (a +ℤ b) +ℤ c ≡ (a +ℤ c) +ℤ b
+ℤ-swap a b c =
    eq_of_parts (a +ℤ b +ℤ c) (a +ℤ c +ℤ b)
      (omega (arith, +ℤ_parts a b, +ℤ_parts (a +ℤ b) c, +ℤ_parts a c, +ℤ_parts (a +ℤ c) b))

pub ℤ_set : IsSet ℤ
ℤ_set = (hlevel)

pub wrap32-swap : (a b c : ℤ) → wrap32 (wrap32 (a +ℤ b) +ℤ c) ≡ wrap32 (wrap32 (a +ℤ c) +ℤ b)
wrap32-swap a b c = wrap32-+ℤ (a +ℤ b) c ∙ (ap wrap32 (+ℤ-swap a b c) ∙ sym (wrap32-+ℤ (a +ℤ c) b))

pub wrap64-swap : (a b c : ℤ) → wrap64 (wrap64 (a +ℤ b) +ℤ c) ≡ wrap64 (wrap64 (a +ℤ c) +ℤ b)
wrap64-swap a b c = wrap64-+ℤ (a +ℤ b) c ∙ (ap wrap64 (+ℤ-swap a b c) ∙ sym (wrap64-+ℤ (a +ℤ c) b))

pub +ℤ-zero : (a : ℤ) → a +ℤ pos 0 ≡ a
+ℤ-zero a = eq_of_parts (a +ℤ pos 0) a (omega (arith, +ℤ_parts a (pos 0)))

pub zero-+ℤ : (a : ℤ) → pos 0 +ℤ a ≡ a
zero-+ℤ a = eq_of_parts (pos 0 +ℤ a) a (omega (arith, +ℤ_parts (pos 0) a))

pub +ℤ-assoc : (a b c : ℤ) → a +ℤ b +ℤ c ≡ a +ℤ (b +ℤ c)
+ℤ-assoc a b c =
    eq_of_parts (a +ℤ b +ℤ c) (a +ℤ (b +ℤ c))
      (omega (arith, +ℤ_parts a b, +ℤ_parts (a +ℤ b) c, +ℤ_parts b c, +ℤ_parts a (b +ℤ c)))

pub wrap32-wrap32 : (a : ℤ) → wrap32 (wrap32 a) ≡ wrap32 a
wrap32-wrap32 a = wrap32_of_IsInt32 (wrap32 a) (wrap32-IsInt32 a)

pub wrap64-wrap64 : (a : ℤ) → wrap64 (wrap64 a) ≡ wrap64 a
wrap64-wrap64 a =
    sym (ap wrap64 (+ℤ-zero (wrap64 a))) ∙ (wrap64-+ℤ a (pos 0) ∙ ap wrap64 (+ℤ-zero a))
