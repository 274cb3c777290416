-- ===== src/Protocol/Wire/Extent.antt =====
-- How far into the buffer the casts of protocol.h read, and where the header of a struct stands.
use titan_lob.Prelude.{ℕ, zero, suc, ◌+◌, ◌*◌, ◌≤◌, ◌<◌, ◌≡◌, refl, ap, arith}
use mathlib.Core.Path.{ap₂}
use titan_lob.Protocol.Wire.{
  Bytes, load_le, load_int64, to_int64, cast_header, cast_add_order, cast_add_iceberg, cast_add_aon,
  cast_cancel, cast_modify, cast_execute,
}

-- the first `n` bytes are the same
abbrev pub Agree : ℕ → Bytes → Bytes → Type 0
Agree n b c = (j : ℕ) → j < n → b j ≡ c j

load_le_ext :
    (size : ℕ) (b c : Bytes)
    → Agree size b c
    → (n off : ℕ) → off + n ≤ size
    → load_le n b off ≡ load_le n c off
load_le_ext size b c h zero off le = refl
load_le_ext size b c h (suc n) off le =
    ap₂ (λ x y. x + 256 * y) (h off (omega arith))
      (load_le_ext size b c h n (off + 1) (omega arith))

load_int64_ext :
    (size : ℕ) (b c : Bytes)
    → Agree size b c
    → (off : ℕ) → off + 8 ≤ size
    → load_int64 b off ≡ load_int64 c off
load_int64_ext size b c h off le = ap to_int64 (load_le_ext size b c h 8 off le)

module _ (size : ℕ) (b c : Bytes) (h : Agree size b c) where
  pub cast_header_ext : 11 ≤ size → cast_header b 0 ≡ cast_header c 0
  unfolding cast_header
  cast_header_ext le = λ i. record {
    type = load_le_ext size b c h 1 0 (omega arith) i;
    length = load_le_ext size b c h 2 1 (omega arith) i;
    timestamp = load_le_ext size b c h 8 3 (omega arith) i;
  }

  pub cast_add_order_ext : 44 ≤ size → cast_add_order b 0 ≡ cast_add_order c 0
  unfolding cast_add_order
  cast_add_order_ext le = λ i. record {
    header = cast_header_ext (omega arith) i;
    order_id = load_le_ext size b c h 8 11 (omega arith) i;
    user_id = load_le_ext size b c h 8 19 (omega arith) i;
    side = load_le_ext size b c h 1 27 (omega arith) i;
    price = load_int64_ext size b c h 28 (omega arith) i;
    quantity = load_int64_ext size b c h 36 (omega arith) i;
  }

  pub cast_add_iceberg_ext : 52 ≤ size → cast_add_iceberg b 0 ≡ cast_add_iceberg c 0
  unfolding cast_add_iceberg
  cast_add_iceberg_ext le = λ i. record {
    header = cast_header_ext (omega arith) i;
    order_id = load_le_ext size b c h 8 11 (omega arith) i;
    user_id = load_le_ext size b c h 8 19 (omega arith) i;
    side = load_le_ext size b c h 1 27 (omega arith) i;
    price = load_int64_ext size b c h 28 (omega arith) i;
    total_quantity = load_int64_ext size b c h 36 (omega arith) i;
    visible_quantity = load_int64_ext size b c h 44 (omega arith) i;
  }

  pub cast_add_aon_ext : 44 ≤ size → cast_add_aon b 0 ≡ cast_add_aon c 0
  unfolding cast_add_aon
  cast_add_aon_ext le = λ i. record {
    header = cast_header_ext (omega arith) i;
    order_id = load_le_ext size b c h 8 11 (omega arith) i;
    user_id = load_le_ext size b c h 8 19 (omega arith) i;
    side = load_le_ext size b c h 1 27 (omega arith) i;
    price = load_int64_ext size b c h 28 (omega arith) i;
    quantity = load_int64_ext size b c h 36 (omega arith) i;
  }

  pub cast_cancel_ext : 19 ≤ size → cast_cancel b 0 ≡ cast_cancel c 0
  unfolding cast_cancel
  cast_cancel_ext le = λ i. record {
    header = cast_header_ext (omega arith) i;
    order_id = load_le_ext size b c h 8 11 (omega arith) i;
  }

  pub cast_modify_ext : 35 ≤ size → cast_modify b 0 ≡ cast_modify c 0
  unfolding cast_modify
  cast_modify_ext le = λ i. record {
    header = cast_header_ext (omega arith) i;
    order_id = load_le_ext size b c h 8 11 (omega arith) i;
    new_price = load_int64_ext size b c h 19 (omega arith) i;
    new_quantity = load_int64_ext size b c h 27 (omega arith) i;
  }

  pub cast_execute_ext : 45 ≤ size → cast_execute b 0 ≡ cast_execute c 0
  unfolding cast_execute
  cast_execute_ext le = λ i. record {
    header = cast_header_ext (omega arith) i;
    order_id = load_le_ext size b c h 8 11 (omega arith) i;
    user_id = load_le_ext size b c h 8 19 (omega arith) i;
    side = load_le_ext size b c h 1 27 (omega arith) i;
    price = load_int64_ext size b c h 28 (omega arith) i;
    quantity = load_int64_ext size b c h 36 (omega arith) i;
    time_in_force = load_le_ext size b c h 1 44 (omega arith) i;
  }

pub header-cast_add_order : (b : Bytes) → (cast_add_order b 0).header ≡ cast_header b 0
unfolding cast_add_order
header-cast_add_order b = refl

pub header-cast_add_iceberg : (b : Bytes) → (cast_add_iceberg b 0).header ≡ cast_header b 0
unfolding cast_add_iceberg
header-cast_add_iceberg b = refl

pub header-cast_add_aon : (b : Bytes) → (cast_add_aon b 0).header ≡ cast_header b 0
unfolding cast_add_aon
header-cast_add_aon b = refl

pub header-cast_cancel : (b : Bytes) → (cast_cancel b 0).header ≡ cast_header b 0
unfolding cast_cancel
header-cast_cancel b = refl

pub header-cast_modify : (b : Bytes) → (cast_modify b 0).header ≡ cast_header b 0
unfolding cast_modify
header-cast_modify b = refl

pub header-cast_execute : (b : Bytes) → (cast_execute b 0).header ≡ cast_header b 0
unfolding cast_execute
header-cast_execute b = refl
