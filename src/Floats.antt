-- ===== src/Floats.antt =====
-- Python's floats as the program uses them: comparison, conversion of an int, the quotient of two
-- ints, and the arithmetic operations. The program implements none of this, so it is a parameter;
-- NaN and overflow do not occur in it (requests are validated, clocks are finite). `FloatLaws` is
-- what the theorems need of IEEE-754 doubles: the order is a total order, and dividing ints is
-- monotone and exact enough to tell a part from the whole.
pub mod FixedPoint
use ctrlf_ai.Prelude.{ℕ, ◌≤◌, ◌<◌, ◌≡◌, Bool, true, false, if◌then◌else◌}

pub record Floats : Type 1 where
  pub F : Type 0
  pub lt : F → F → Bool
  pub of_nat : ℕ → F
  pub quotient : ℕ → ℕ → F
  pub plus : F → F → F
  pub minus : F → F → F
  pub times : F → F → F

-- `min(a, b)`: the first argument unless the second is smaller.
abbrev pub min_of : (fl : Floats) → fl.F → fl.F → fl.F
min_of fl a b = if fl.lt b a then b else a

-- `(part / whole) * 100`
abbrev pub percent : (fl : Floats) → ℕ → ℕ → fl.F
percent fl part whole = fl.times (fl.quotient part whole) (fl.of_nat 100)

-- Ints up to here are doubles with room to spare.
abbrev pub exact_limit : ℕ
exact_limit = 1_000_000_000_000

pub record FloatLaws (fl : Floats) : Type 0 where
  pub lt_irrefl : (a : fl.F) → fl.lt a a ≡ false
  pub lt_asymm : (a b : fl.F) → fl.lt a b ≡ true → fl.lt b a ≡ false
  pub le_trans : (a b c : fl.F) → fl.lt b a ≡ false → fl.lt c b ≡ false → fl.lt c a ≡ false
  pub percent_mono :
      (m n whole : ℕ) → m ≤ n → fl.lt (percent fl n whole) (percent fl m whole) ≡ false
  pub percent_whole :
      (part whole : ℕ)
      → 0 < whole
      → whole ≤ part
      → fl.lt (percent fl part whole) (fl.of_nat 100) ≡ false
  pub percent_part :
      (part whole : ℕ)
      → part < whole
      → whole < exact_limit
      → fl.lt (percent fl part whole) (fl.of_nat 100) ≡ true
