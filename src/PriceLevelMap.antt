-- ===== src/PriceLevelMap.antt =====
-- src/common/price_level_map.hpp: quantities by price with a cached best price, of one side. The
-- template parameter `ForBids` is an argument. uint32_t sums wrap; a pointer into the table is the slot.
pub mod Best
pub mod Adds
use mockex.Prelude.{ℕ, ◌+◌, ◌-◌, ◌%◌, ◌^◌, Bool, true, false, ◌||◌, ltb, leb, ◌==◌, if◌then◌else◌}
use mockex.Prelude.{Option, none, some}
use mockex.Types.{invalid_price}
use mockex.FlatHashMap
use mockex.FlatHashMap.{FlatHashMap, store, for_each}

abbrev pub is_better : Bool → ℕ → ℕ → Bool
is_better true a b = ltb b a
is_better false a b = ltb a b

pub record PriceLevelMap : Type 0 where
  pub levels : FlatHashMap ℕ
  pub best_price : ℕ
  pub best_qty : ℕ

-- The constructor, with a table for 128 levels.
unfoldable pub create : PriceLevelMap
create = record { levels = FlatHashMap.create 0 128; best_price = invalid_price; best_qty = 0 }

-- `best_price_ == UINT32_MAX || is_better(price, best_price_)`
abbrev pub leads : Bool → PriceLevelMap → ℕ → Bool
leads for_bids m price = (m.best_price == invalid_price) || is_better for_bids price m.best_price

unfoldable pub add : Bool → PriceLevelMap → ℕ → ℕ → PriceLevelMap
add for_bids m price qty = elim (FlatHashMap.find m.levels price) [
  | some i ↦
      let existing = (m.levels.vals i + qty) % 2 ^ 32 in
      record {
        levels = store m.levels i existing;
        best_price = m.best_price;
        best_qty = if price == m.best_price then existing else m.best_qty;
      }
  | none ↦
      let levels = (FlatHashMap.insert m.levels price qty).0 in
      if leads for_bids m price
      then record { levels = levels; best_price = price; best_qty = qty }
      else record m { levels = levels }
]

-- The function that `rescan` applies to each level.
abbrev pub consider : Bool → PriceLevelMap → ℕ → ℕ → PriceLevelMap
consider for_bids m price qty =
    if leads for_bids m price then record m { best_price = price; best_qty = qty } else m

unfoldable pub rescan : Bool → PriceLevelMap → PriceLevelMap
rescan for_bids m =
    for_each (consider for_bids) m.levels (record m { best_price = invalid_price; best_qty = 0 })

unfoldable pub remove : Bool → PriceLevelMap → ℕ → ℕ → PriceLevelMap × Bool
unfolding rescan
remove for_bids m price qty = elim (FlatHashMap.find m.levels price) [
  | none ↦ (m, false)
  | some i ↦
      let existing = m.levels.vals i in
      let erased = record m { levels = (FlatHashMap.erase m.levels price).0 } in
      let left = existing - qty in
      (
        if leb existing qty
            then (if price == m.best_price then rescan for_bids erased else erased)
            else record {
              levels = store m.levels i left;
              best_price = m.best_price;
              best_qty = if price == m.best_price then left else m.best_qty;
            },
        true,
      )
]

unfoldable pub clear : PriceLevelMap → PriceLevelMap
clear m = record { levels = FlatHashMap.clear m.levels; best_price = invalid_price; best_qty = 0 }

-- `find`, `empty` and `size`
abbrev pub find : PriceLevelMap → ℕ → Option ℕ
find m price = FlatHashMap.find m.levels price

abbrev pub is_empty : PriceLevelMap → Bool
is_empty m = m.levels.size == 0

abbrev pub size : PriceLevelMap → ℕ
size m = m.levels.size
