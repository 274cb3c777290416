-- ===== src/Book/Links/Chain.antt =====
-- `list_push_back` and `list_remove` of order_book.h: the data of the orders and the volumes of the
-- level.
use titan_lob.Prelude.{ℕ, ◌≡◌, refl, ◌==◌, arith, Bool-cases, inl, inr}
use titan_lob.Pool.{ObjectPool, null_index}
use titan_lob.Book.Types.{Order, PriceLevel}
use titan_lob.Book.Links.{set_next, set_prev, list_push_back, unlink_prev, unlink_next, list_remove}

-- equal but for the links
pub record SameData (o o' : Order) : Type 0 where
  pub order_id : o'.order_id ≡ o.order_id
  pub price : o'.price ≡ o.price
  pub quantity : o'.quantity ≡ o.quantity
  pub hidden_quantity : o'.hidden_quantity ≡ o.hidden_quantity
  pub peak_size : o'.peak_size ≡ o.peak_size
  pub user_id_low : o'.user_id_low ≡ o.user_id_low
  pub flags : o'.flags ≡ o.flags

-- the pool after an operation on the links
pub record SameObjects (p p' : ObjectPool Order) : Type 0 where
  pub data_of : (j : ℕ) → SameData (p.pool j) (p'.pool j)
  pub size : p'.size ≡ p.size
  pub free_indices : p'.free_indices ≡ p.free_indices

pub record SameVolumes (l l' : PriceLevel) : Type 0 where
  pub total : l'.total_volume ≡ l.total_volume
  pub visible : l'.total_visible_volume ≡ l.total_visible_volume
  pub aon : l'.total_aon_volume ≡ l.total_aon_volume
  pub non_aon : l'.total_non_aon_volume ≡ l.total_non_aon_volume

pub SameData-refl : (o : Order) → SameData o o
SameData-refl o = ground arith

pub SameObjects-refl : (p : ObjectPool Order) → SameObjects p p
SameObjects-refl p = record {
  data_of = λ j. SameData-refl (p.pool j);
  size = refl;
  free_indices = refl;
}

pub SameObjects-trans :
    {p q r : ObjectPool Order} → SameObjects p q → SameObjects q r → SameObjects p r
SameObjects-trans {p} {q} {r} h k = record {
  data_of = λ j. let a = h.data_of j in let b = k.data_of j in ground arith;
  size = ground arith;
  free_indices = ground arith;
}

pub set_next-SameObjects : (p : ObjectPool Order) (idx i : ℕ) → SameObjects p (set_next p idx i)
unfolding set_next
set_next-SameObjects p idx i = record {
  data_of = λ j. ground arith;
  size = refl;
  free_indices = refl;
}

pub set_prev-SameObjects : (p : ObjectPool Order) (idx i : ℕ) → SameObjects p (set_prev p idx i)
unfolding set_prev
set_prev-SameObjects p idx i = record {
  data_of = λ j. ground arith;
  size = refl;
  free_indices = refl;
}

-- An operation on the links of a level.
abbrev pub OnlyLinks : ObjectPool Order → PriceLevel → ObjectPool Order × PriceLevel → Type 0
OnlyLinks p level (p', level') = SameObjects p p' × SameVolumes level level'

SameVolumes-refl : (l : PriceLevel) → SameVolumes l l
SameVolumes-refl l = ground arith

unlink_prev-OnlyLinks :
    (p : ObjectPool Order) (level : PriceLevel) (idx : ℕ)
    → OnlyLinks p level (unlink_prev p level idx)
unfolding unlink_prev
unlink_prev-OnlyLinks p level idx = elim (Bool-cases ((p.pool idx).prev == null_index)) [
  | inl e ↦ rw e (SameObjects-refl p, ground arith)
  | inr ne ↦
      rw ne (set_next-SameObjects p (p.pool idx).prev (p.pool idx).next, SameVolumes-refl level)
]

unlink_next-OnlyLinks :
    (p : ObjectPool Order) (level : PriceLevel) (idx : ℕ)
    → OnlyLinks p level (unlink_next p level idx)
unfolding unlink_next
unlink_next-OnlyLinks p level idx = elim (Bool-cases ((p.pool idx).next == null_index)) [
  | inl e ↦ rw e (SameObjects-refl p, ground arith)
  | inr ne ↦
      rw ne (set_prev-SameObjects p (p.pool idx).next (p.pool idx).prev, SameVolumes-refl level)
]

-- `list_remove` changes links, the ends of the level and its count, and nothing else.
pub list_remove-OnlyLinks :
    (p : ObjectPool Order) (level : PriceLevel) (idx : ℕ)
    → OnlyLinks p level (list_remove p level idx)
unfolding list_remove
list_remove-OnlyLinks p level idx =
    let (p1, level1) = unlink_prev p level idx in
    let (p2, level2) = unlink_next p1 level1 idx in
    let first = unlink_prev-OnlyLinks p level idx in
    let second = unlink_next-OnlyLinks p1 level1 idx in
    (
      SameObjects-trans first.0 (
          SameObjects-trans second.0 (
            SameObjects-trans (set_next-SameObjects p2 idx null_index)
              (set_prev-SameObjects (set_next p2 idx null_index) idx null_index))),
      volumes first.1 second.1,
    )
  where
    volumes :
        {l m n : PriceLevel} {k : ℕ}
        → SameVolumes l m
        → SameVolumes m n
        → SameVolumes l (record n { count = k })
    volumes h k = ground arith

-- So does `list_push_back`.
pub list_push_back-OnlyLinks :
    (p : ObjectPool Order) (level : PriceLevel) (idx : ℕ)
    → OnlyLinks p level (list_push_back p level idx)
unfolding list_push_back
list_push_back-OnlyLinks p level idx =
    let tied : SameObjects p (set_prev (set_next p idx null_index) idx level.tail) =
      SameObjects-trans (set_next-SameObjects p idx null_index)
        (set_prev-SameObjects (set_next p idx null_index) idx level.tail) in
    elim (Bool-cases (level.tail == null_index)) [
      | inl e ↦ rw e (tied, ground arith)
      | inr ne ↦ rw ne (
        SameObjects-trans tied (
            set_next-SameObjects (set_prev (set_next p idx null_index) idx level.tail) level.tail
              idx),
        ground arith,
      )
    ]
