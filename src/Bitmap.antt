-- ===== src/Bitmap.antt =====
-- order_book.h, the bitmap over the price levels: one bit for a level, in words of 64 bits.
pub mod Words
pub mod Levels
pub mod Find
pub mod Change
use Prim.Native.Nat.{bit_and, bit_or}
use titan_lob.Prelude.{
  ℕ, zero, suc, ◌+◌, ◌-◌, ◌*◌, ◌/◌, ◌%◌, ◌^◌, Bool, not, ◌==◌, if◌then◌else◌, ℤ, pos, negsuc,
  update,
}
use titan_lob.Bits.{digit}

-- the array of `uint64_t` words
abbrev pub Words : Type 0
Words = ℕ → ℕ

abbrev pub max_price_levels : ℕ
max_price_levels = 33554432

abbrev pub bitmap_words : ℕ
bitmap_words = max_price_levels / 64

unfoldable pub set : Words → ℕ → Words
unfolding update
set bitmap idx = update bitmap (idx / 64) (bit_or (bitmap (idx / 64)) (2 ^ (idx % 64)))

-- `~(1ULL << k)` is `2 ^ 64 - 1 - 2 ^ k`.
unfoldable pub clear : Words → ℕ → Words
unfolding update
clear bitmap idx =
    update bitmap (idx / 64) (bit_and (bitmap (idx / 64)) (2 ^ 64 - 1 - 2 ^ (idx % 64)))

unfoldable pub test : Words → ℕ → Bool
test bitmap idx = not (bit_and (bitmap (idx / 64)) (2 ^ (idx % 64)) == 0)

-- `__builtin_clzll`: the zeros above the highest bit of the `n` low bits
unfoldable pub clz : ℕ → ℕ → ℕ
clz zero w = 0
clz (suc n) w = if digit w n then 0 else suc (clz n w)

-- `__builtin_ctzll`: the zeros below the lowest bit, of `n` bits
unfoldable pub ctz : ℕ → ℕ → ℕ
ctz zero w = 0
ctz (suc n) w = if digit w 0 then 0 else suc (ctz n (w / 2))

-- The words `n - 1` down to 0.
unfoldable pub highest_below : Words → ℕ → ℤ
unfolding clz
highest_below bitmap zero = negsuc 0
highest_below bitmap (suc w) =
    let rest = highest_below bitmap w in
    if bitmap w == 0 then rest else pos (w * 64 + (63 - clz 64 (bitmap w)))

-- A negative `start_word` makes no round.
unfoldable pub find_highest : Words → ℤ → ℤ
unfolding highest_below
find_highest bitmap (pos start_word) = highest_below bitmap (suc start_word)
find_highest bitmap (negsuc n) = negsuc 0

-- `rounds` words from `w` on
unfoldable pub lowest_from : Words → ℕ → ℕ → ℤ
unfolding ctz
lowest_from bitmap zero w = negsuc 0
lowest_from bitmap (suc rounds) w =
    let rest = lowest_from bitmap rounds (suc w) in
    if bitmap w == 0 then rest else pos (w * 64 + ctz 64 (bitmap w))

-- The loop's variable is a `size_t`: a negative `start_word` is a number past every word.
unfoldable pub find_lowest : Words → ℕ → ℤ → ℤ
unfolding lowest_from
find_lowest bitmap num_words (pos start_word) =
    lowest_from bitmap (num_words - start_word) start_word
find_lowest bitmap num_words (negsuc n) = negsuc 0
