-- ===== src/Bits.antt =====
-- The bits of a native number, and what `&` and `|` do to them.
mod Step
mod Masks
pub use Step.{bit_and-halves, bit_or-halves, bit_xor-halves}
pub use Masks.{
  digit, digit-bit_and, digit-bit_or, digit-pow, digit-clear_mask, bit_and-pow_eq_zero,
  eq_zero_of_digits, pow_lt, bit_or_lt, bit_and-le,
}
