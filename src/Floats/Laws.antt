-- ===== src/Floats/Laws.antt =====
-- What float64 is relied on for, where a theorem needs it. NaN is the value that is not `<=` itself.
use ovro.Prelude.Int.{ℤ, ◌≤ℤ◌, pos}
use ovro.Prelude.{not, ◌⊎◌, ◌<◌, true, ◌≡◌, ℕ}
use ovro.Floats.{Floats}

module _ (Fl : Floats) where
  open Fl use {F}

  abbrev pub IsNumber : F → Type 0
  IsNumber x = Fl.at_most x x ≡ true

  infix 20 ◌⊑◌
  abbrev pub ◌⊑◌ : F → F → Type 0
  x ⊑ y = Fl.at_most x y ≡ true

  -- The order of the numbers.
  pub record IsOrdered : Type 0 where
    pub le_trans : (x y z : F) → x ⊑ y → y ⊑ z → x ⊑ z
    pub le_total : (x y : F) → IsNumber x → IsNumber y → x ⊑ y ⊎ y ⊑ x
    pub less_numbers : (x y : F) → Fl.less x y ≡ true → IsNumber x × IsNumber y
    pub le_numbers : (x y : F) → x ⊑ y → IsNumber x × IsNumber y
    pub less-not-le : (x y : F) → IsNumber x → IsNumber y → Fl.less x y ≡ not (Fl.at_most y x)

  -- A number from 0 to a whole number below 2^53.
  pub record IsWithin (x : F) (n : ℕ) : Type 0 where
    pub small : n < 9007199254740992
    pub from : Fl.of_int (pos 0) ⊑ x
    pub to : x ⊑ Fl.of_int (pos n)

  -- Whole numbers below 2^53 are exact; up to them, rounding to whole numbers is monotone; and a
  -- product of a whole number and a factor from 0 to 1 stays between 0 and that number.
  pub record IsRounding : Type 0 where
    pub floor_of_int : (n : ℕ) → n < 9007199254740992 → Fl.floor_int (Fl.of_int (pos n)) ≡ pos n
    pub ceil_of_int : (n : ℕ) → n < 9007199254740992 → Fl.ceil_int (Fl.of_int (pos n)) ≡ pos n
    pub floor_mono :
        (x y : F) (n : ℕ) → IsWithin x n → IsWithin y n → x ⊑ y → Fl.floor_int x ≤ℤ Fl.floor_int y
    pub ceil_mono :
        (x y : F) (n : ℕ) → IsWithin x n → IsWithin y n → x ⊑ y → Fl.ceil_int x ≤ℤ Fl.ceil_int y
    pub floor-le-ceil : (x : F) (n : ℕ) → IsWithin x n → Fl.floor_int x ≤ℤ Fl.ceil_int x
    pub of_int_mono : (a b : ℤ) → a ≤ℤ b → Fl.of_int a ⊑ Fl.of_int b
    pub hundredth :
        (p : ℤ)
        → pos 0 ≤ℤ p
        → p ≤ℤ pos 100
        → (Fl.of_int (pos 0) ⊑ Fl.div (Fl.of_int p) (Fl.of_int (pos 100)))
          × (Fl.div (Fl.of_int p) (Fl.of_int (pos 100)) ⊑ Fl.of_int (pos 1))
    pub mul_within :
        (x : F) (n : ℕ)
        → Fl.of_int (pos 0) ⊑ x
        → x ⊑ Fl.of_int (pos 1)
        → (Fl.of_int (pos 0) ⊑ Fl.mul x (Fl.of_int (pos n)))
          × (Fl.mul x (Fl.of_int (pos n)) ⊑ Fl.of_int (pos n))
