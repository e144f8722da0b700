-- ===== src/PriceLevelMap/Best.antt =====
-- The best price of src/common/price_level_map.hpp against the table of levels.
use mockex.Prelude.{
  subst, ℕ, zero, suc, ◌+◌, ◌≤◌, ◌<◌, ◌≡◌, ◌≢◌, refl, ap, ◌∙◌, arith, Bool, true, false,
}
use mockex.Prelude.{if◌then◌else◌, inl, inr, Bool-cases, some, ◌⊎◌, le→leb, ==_of_eq, ==_of_ne}
use native.Mathlib.Decide.{ℕ_discrete}
use mockex.Types.{invalid_price}
use mockex.FlatHashMap
use mockex.FlatHashMap.{FlatHashMap, for_each_from, for_each}
use mockex.PriceLevelMap.{PriceLevelMap, leads, consider, rescan, remove, add}
use mockex.FlatHashMap.Entries.{Holds, erase-Holds}
use native.Mathlib.Nat.{zero-add}

-- A price as far ahead as another on a side, or further.
abbrev pub IsAhead : Bool → ℕ → ℕ → Type 0
IsAhead true a b = b ≤ a
IsAhead false a b = a ≤ b

-- What a scan of the slots from one to another leaves: no price, if they hold none; else the price
-- and the quantity of a slot, ahead of all prices there.
pub record IsScanned (for_bids : Bool) (t : FlatHashMap ℕ) (i : ℕ) (m : PriceLevelMap)
    : Type 0 where
  pub nothing : m.best_price ≡ invalid_price → (j : ℕ) → j < i → t.keys j ≡ 0
  pub held :
      m.best_price ≢ invalid_price
      → (j : ℕ) × (j < i) × (t.keys j ≢ 0) × (t.keys j ≡ m.best_price) × (t.vals j ≡ m.best_qty)
  pub ahead :
      m.best_price ≢ invalid_price
      → (j : ℕ) → j < i
      → t.keys j ≢ 0
      → IsAhead for_bids m.best_price (t.keys j)

pub IsAhead-refl : (b : Bool) (p : ℕ) → IsAhead b p p
IsAhead-refl true p = omega arith
IsAhead-refl false p = omega arith

pub IsAhead-trans : (b : Bool) (p q r : ℕ) → IsAhead b p q → IsAhead b q r → IsAhead b p r
IsAhead-trans true p q r h k = omega arith
IsAhead-trans false p q r h k = omega arith

pub leads_there :
    (b : Bool) (m : PriceLevelMap) (price : ℕ)
    → leads b m price ≡ true
    → (m.best_price ≡ invalid_price) ⊎ IsAhead b price m.best_price
leads_there true m price h = ground arith
leads_there false m price h = ground arith

pub leads_not :
    (b : Bool) (m : PriceLevelMap) (price : ℕ)
    → leads b m price ≡ false
    → (m.best_price ≢ invalid_price) × IsAhead b m.best_price price
leads_not true m price h = ground arith
leads_not false m price h = ground arith

module _ (for_bids : Bool) (t : FlatHashMap ℕ) (low : Holds (λ k _. k < invalid_price) t) where
  skip-IsScanned :
      (i : ℕ) (m : PriceLevelMap)
      → IsScanned for_bids t i m
      → t.keys i ≡ 0
      → IsScanned for_bids t (i + 1) m
  skip-IsScanned i m s z = record {
    nothing = λ e j lt. elim (ℕ_discrete j i) [
      | yes same ↦ ap t.keys same ∙ z
      | no other ↦ s.nothing e j (omega arith)
    ];
    held = λ ne. let (j, lt, full, at, qty) = s.held ne in (j, omega arith, full, at, qty);
    ahead = λ ne j lt full. elim (ℕ_discrete j i) [
      | yes same ↦ absurd (full (ap t.keys same ∙ z))
      | no other ↦ s.ahead ne j (omega arith) full
    ];
  }

  lead-IsScanned :
      (i : ℕ) (m : PriceLevelMap)
      → IsScanned for_bids t i m
      → t.keys i ≢ 0
      → leads for_bids m (t.keys i) ≡ true
      → IsScanned for_bids t (i + 1) (record m { best_price = t.keys i; best_qty = t.vals i })
  lead-IsScanned i m s nz h = record {
    nothing = λ e j lt. absurd (omega (arith, low i nz, e));
    held = λ ne. (i, omega arith, nz, refl, refl);
    ahead = λ ne j lt full. elim (ℕ_discrete j i) [
      | yes same ↦ rw same (IsAhead-refl for_bids (t.keys i))
      | no other ↦ elim (ℕ_discrete m.best_price invalid_price) [
        | yes fresh ↦ absurd (full (s.nothing fresh j (omega arith)))
        | no there ↦ elim (leads_there for_bids m (t.keys i) h) [
          | inl fresh ↦ absurd (there fresh)
          | inr better ↦
              IsAhead-trans for_bids (t.keys i) m.best_price (t.keys j) better
                (s.ahead there j (omega arith) full)
        ]
      ]
    ];
  }

  follow-IsScanned :
      (i : ℕ) (m : PriceLevelMap)
      → IsScanned for_bids t i m
      → leads for_bids m (t.keys i) ≡ false
      → IsScanned for_bids t (i + 1) m
  follow-IsScanned i m s h =
      let (there, behind) = leads_not for_bids m (t.keys i) h in
      record {
        nothing = λ e j lt. absurd (there e);
        held = λ ne. let (j, lt, full, at, qty) = s.held ne in (j, omega arith, full, at, qty);
        ahead = λ ne j lt full. elim (ℕ_discrete j i) [
          | yes same ↦ rw same behind
          | no other ↦ s.ahead ne j (omega arith) full
        ];
      }

  for_each_from-IsScanned :
      (n i : ℕ) (m : PriceLevelMap)
      → IsScanned for_bids t i m
      → IsScanned for_bids t (i + n) (for_each_from (consider for_bids) t n i m)
  unfolding for_each_from
  for_each_from-IsScanned zero i m s =
      subst (λ k. IsScanned for_bids t k m) (let e : i ≡ i + 0 = omega arith in e) s
  for_each_from-IsScanned (suc n) i m s =
      let shift : i + 1 + n ≡ i + suc n = omega arith in
      subst (λ k. IsScanned for_bids t k (for_each_from (consider for_bids) t (suc n) i m)) shift
        (elim (ℕ_discrete (t.keys i) 0) [
          | yes z ↦
              rw (==_of_eq z, for_each_from)
                (for_each_from-IsScanned n (i + 1) m (skip-IsScanned i m s z))
          | no nz ↦ elim (Bool-cases (leads for_bids m (t.keys i))) [
            | inl first ↦
                rw (==_of_ne nz, first, for_each_from)
                  (for_each_from-IsScanned n (i + 1) _ (lead-IsScanned i m s nz first))
            | inr behind ↦
                rw (==_of_ne nz, behind, for_each_from)
                  (for_each_from-IsScanned n (i + 1) m (follow-IsScanned i m s behind))
          ]
        ])

-- A rescan finds the best of the slots, whatever the best was before.
rescan-IsScanned :
    (for_bids : Bool) (m : PriceLevelMap)
    → Holds (λ k _. k < invalid_price) m.levels
    → IsScanned for_bids m.levels m.levels.capacity (rescan for_bids m)
unfolding rescan for_each
rescan-IsScanned for_bids m low =
    let scanned =
      for_each_from-IsScanned for_bids m.levels low m.levels.capacity 0
        (record m { best_price = invalid_price; best_qty = 0 })
        (record {
          nothing = λ e j lt. absurd (omega arith);
          held = λ ne. absurd (ne refl);
          ahead = λ ne. absurd (ne refl);
        }) in
    subst (λ n. IsScanned for_bids m.levels n (rescan for_bids m)) (zero-add m.levels.capacity)
      scanned

-- A rescan does not touch the levels.
for_each_from-levels :
    (for_bids : Bool) (t : FlatHashMap ℕ) (n i : ℕ) (m : PriceLevelMap)
    → (for_each_from (consider for_bids) t n i m).levels ≡ m.levels
unfolding for_each_from
for_each_from-levels for_bids t zero i m = refl
for_each_from-levels for_bids t (suc n) i m = elim (ℕ_discrete (t.keys i) 0) [
  | yes z ↦ rw (==_of_eq z, for_each_from) (for_each_from-levels for_bids t n (i + 1) m)
  | no nz ↦ elim (Bool-cases (leads for_bids m (t.keys i))) [
    | inl first ↦
        rw (==_of_ne nz, first, for_each_from) (for_each_from-levels for_bids t n (i + 1) _)
    | inr behind ↦
        rw (==_of_ne nz, behind, for_each_from) (for_each_from-levels for_bids t n (i + 1) m)
  ]
]

rescan-levels : (for_bids : Bool) (m : PriceLevelMap) → (rescan for_bids m).levels ≡ m.levels
unfolding rescan for_each
rescan-levels for_bids m = for_each_from-levels for_bids m.levels m.levels.capacity 0 _

-- On a table whose keys are below the invalid price, taking the whole quantity of the best level
-- reports success and leaves the table from which the key of that level was erased. It leaves the
-- invalid price as the best if no slot of that table holds a key, and else the key and the quantity of
-- one of its slots, with no key of any slot ahead of it on the side.
pub remove_best :
    (for_bids : Bool) (m : PriceLevelMap) (qty i : ℕ)
    → Holds (λ k _. k < invalid_price) m.levels
    → FlatHashMap.find m.levels m.best_price ≡ some i
    → m.levels.vals i ≤ qty
    → let (m', done) = remove for_bids m m.best_price qty in
      let left = (FlatHashMap.erase m.levels m.best_price).0 in
      (done ≡ true) × (m'.levels ≡ left) × IsScanned for_bids left left.capacity m'
unfolding remove
remove_best for_bids m qty i low at all =
    let erased = record m { levels = (FlatHashMap.erase m.levels m.best_price).0 } in
    rw (at, le→leb _ _ all, ==_of_eq {a = m.best_price} refl, remove)
      (
        refl,
        rescan-levels for_bids erased,
        rescan-IsScanned for_bids erased
            (erase-Holds (λ k _. k < invalid_price) m.levels m.best_price low),
      )

-- A level at price 0, the empty key of the table, is never stored, and a removal at price 0 does
-- nothing; yet where there is no best price, or price 0 is ahead of it, it becomes the best price.
pub add_price_zero :
    (for_bids : Bool) (m : PriceLevelMap) (qty : ℕ)
    → let m' = add for_bids m 0 qty in
      (m'.levels ≡ m.levels)
      × (m'.best_price ≡ (if leads for_bids m 0 then 0 else m.best_price))
      × (remove for_bids m' 0 qty ≡ (m', false))
unfolding add remove FlatHashMap.find FlatHashMap.insert FlatHashMap.insert_at_depth
add_price_zero for_bids m qty = elim (Bool-cases (leads for_bids m 0)) [
  | inl first ↦ rw (first, add) (refl, refl, refl)
  | inr behind ↦ rw (behind, add) (refl, refl, refl)
]
