-- ===== src/Book/Api/Blocked.antt =====
-- `add_order` at a level of large all-or-none orders.
use titan_lob.Prelude.{ℕ, ◌≡◌, Bool, true, false, ◌<◌, arith, none, List, ℤ, pos}
use titan_lob.Bitmap.{max_price_levels}
use titan_lob.Book.Types.{gtc}
use titan_lob.Book.State.{Book, other_side}
use titan_lob.Book.Match.{is_worse, incoming, match_internal}
use titan_lob.Book.Match.Stuck.{IsBlocked, match-blocked}
use titan_lob.Book.Api.{is_aggressive, add_order}

aggressive_at :
    (b : Book) (order_id : ℕ) (is_buy : Bool) (price : ℤ) (n : ℕ)
    → (other_side is_buy b).best ≡ pos n
    → n < max_price_levels
    → is_worse (incoming order_id is_buy price) (pos n) ≡ false
    → is_aggressive b is_buy price ≡ true
aggressive_at b order_id true price n e lt h = rw e (ground arith)
aggressive_at b order_id false price n e lt h = rw e (ground arith)

-- `add_order` of an order that meets a best level where every order is all-or-none and larger than
-- it does not return: no fuel is enough.
pub add_order-blocked :
    (fuel : ℕ) (b : Book) (order_id : ℕ) (is_buy : Bool) (price qty : ℤ) (user_id n : ℕ)
    → (xs : List ℕ) → IsBlocked b (incoming order_id is_buy price) qty n xs
    → add_order fuel b order_id is_buy price qty user_id ≡ none
unfolding add_order
add_order-blocked fuel b order_id is_buy price qty user_id n xs h =
    let aggressive : is_aggressive b is_buy price ≡ true =
      aggressive_at b order_id is_buy price n h.best h.in_range h.meets in
    let stuck : match_internal fuel b order_id is_buy price qty gtc ≡ none =
      (match-blocked fuel b order_id is_buy price qty n xs h).0 in
    rw (aggressive, stuck)
