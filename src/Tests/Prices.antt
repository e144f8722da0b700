-- ===== src/Tests/Prices.antt =====
-- The price level map of src/common/price_level_map.hpp.
use mockex.Prelude.{◌≡◌, ◌<◌, refl, arith, some, true, false, [], ◌∷◌}
use native.Mathlib.Decide.{ℕ_discrete}
use mockex.Types.{invalid_price}
use mockex.FlatHashMap
use mockex.FlatHashMap.{FlatHashMap, home, update, find, erase}
use mockex.FlatHashMap.Entries.{Holds}
use mockex.PriceLevelMap.{PriceLevelMap, create, remove, leads}
use mockex.PriceLevelMap.Best.{IsScanned, remove_best}
use mockex.PriceLevelMap.Adds.{IsBest, adds, adds-IsBest}

-- One level, of 7 at price 100.
abbrev one_level : PriceLevelMap
one_level = record {
  levels = record {
    capacity = 4;
    mask = 3;
    size = 1;
    keys = update (λ _. 0) (home 3 100) 100;
    vals = λ _. 7;
    blank = 0;
  };
  best_price = 100;
  best_qty = 7;
}

one_level_found : find one_level.levels 100 ≡ some (home 3 100)
unfolding find FlatHashMap.probe home FlatHashMap.mix
one_level_found = refl

one_level_low : Holds (λ k _. k < invalid_price) one_level.levels
one_level_low =
    λ j nz. elim (ℕ_discrete j (home 3 100)) [ yes same ↦ ground arith | no other ↦ ground arith ]

remove_best_example :
    let (m, done) = remove true one_level 100 7 in
    let left = (erase one_level.levels 100).0 in
    (done ≡ true) × (m.levels ≡ left) × IsScanned true left left.capacity m
remove_best_example =
    remove_best true one_level 7 (home 3 100) one_level_low one_level_found (omega arith)

-- On the side of the asks price 0 is ahead of 100.
price_zero_leads : leads false one_level 0 ≡ true
price_zero_leads = refl

adds-IsBest_example : IsBest true (adds true create ((100, 5) ∷ (103, 1) ∷ (100, 2) ∷ []))
adds-IsBest_example =
    adds-IsBest true ((100, 5) ∷ (103, 1) ∷ (100, 2) ∷ [])
      ((omega arith, omega arith), ((omega arith, omega arith), ((omega arith, omega arith), tt)))
