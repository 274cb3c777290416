-- ===== src/Book/Volume.antt =====
-- order_book.h, the volume counters of a price level.
pub mod Sums
pub mod Side
pub mod Held
use titan_lob.Prelude.{Bool, if◌then◌else◌, ℤ, pos, ◌+ℤ◌, ◌-ℤ◌}
use titan_lob.Book.Types.{Order, PriceLevel, is_aon}

unfoldable pub add_to_level_volume : PriceLevel → Order → PriceLevel
add_to_level_volume level order =
    let total : ℤ = order.quantity +ℤ order.hidden_quantity in
    let counted : PriceLevel = record level {
      total_volume = level.total_volume +ℤ total;
      total_visible_volume = level.total_visible_volume +ℤ order.quantity;
    } in
    if is_aon order
    then record counted { total_aon_volume = level.total_aon_volume +ℤ total }
    else record counted { total_non_aon_volume = level.total_non_aon_volume +ℤ total }

unfoldable pub remove_from_level_volume : PriceLevel → Order → PriceLevel
remove_from_level_volume level order =
    let total : ℤ = order.quantity +ℤ order.hidden_quantity in
    let counted : PriceLevel = record level {
      total_volume = level.total_volume -ℤ total;
      total_visible_volume = level.total_visible_volume -ℤ order.quantity;
    } in
    if is_aon order
    then record counted { total_aon_volume = level.total_aon_volume -ℤ total }
    else record counted { total_non_aon_volume = level.total_non_aon_volume -ℤ total }

unfoldable pub adjust_level_volume :
    PriceLevel → (visible_delta hidden_delta : ℤ) → (aon : Bool) → PriceLevel
adjust_level_volume level visible_delta hidden_delta aon =
    let delta : ℤ = visible_delta +ℤ hidden_delta in
    let counted : PriceLevel = record level {
      total_volume = level.total_volume +ℤ delta;
      total_visible_volume = level.total_visible_volume +ℤ visible_delta;
    } in
    if aon
    then record counted { total_aon_volume = level.total_aon_volume +ℤ delta }
    else record counted { total_non_aon_volume = level.total_non_aon_volume +ℤ delta }
