-- ===== src/Floats/FixedPoint.antt =====
-- A concrete instance of the floats: signed fixed-point numbers in thousandths, a number being the
-- difference of its two parts.
use ctrlf_ai.Prelude.{ℕ, ◌+◌, ◌*◌, ◌/◌, ◌≤◌, ◌<◌, Bool, arith, ltb}
use ctrlf_ai.Floats.{Floats, FloatLaws}

abbrev pub fixed_lt : ℕ × ℕ → ℕ × ℕ → Bool
fixed_lt a b = ltb (a.0 + b.1) (b.0 + a.1)

abbrev pub fixed_point : Floats
fixed_point = record {
  F = ℕ × ℕ;
  lt = fixed_lt;
  of_nat = λ n. (1000 * n, 0);
  quotient = λ m n. (1000 * m / n, 0);
  plus = λ a b. (a.0 + b.0, a.1 + b.1);
  minus = λ a b. (a.0 + b.1, a.1 + b.0);
  times = λ a b. ((a.0 * b.0 + a.1 * b.1) / 1000, (a.0 * b.1 + a.1 * b.0) / 1000);
}

part_div : (m n : ℕ) → m < n → 1000 * m / n < 1000
part_div m n h = grind arith

whole_div : (m n : ℕ) → 0 < n → n ≤ m → 1000 ≤ 1000 * m / n
whole_div m n p h = grind arith

mono_div : (m n k : ℕ) → m ≤ n → 1000 * m / k ≤ 1000 * n / k
mono_div m n k h = grind arith

pub fixed_point-laws : FloatLaws fixed_point
fixed_point-laws = record {
  lt_irrefl = λ a. ground arith;
  lt_asymm = λ a b h. ground arith;
  le_trans = λ a b c h k. ground arith;
  percent_mono = λ m n k h. ground (arith, mono_div m n k h);
  percent_whole = λ m n p h. ground (arith, whole_div m n p h);
  percent_part = λ m n h k. ground (arith, part_div m n h);
}
