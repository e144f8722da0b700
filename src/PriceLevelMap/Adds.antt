-- ===== src/PriceLevelMap/Adds.antt =====
-- Adds to a price level map of src/common/price_level_map.hpp, from a new one.
use native.Mathlib.Decide.{ℕ_discrete}
use mockex.Prelude.{
  ℕ, ◌+◌, ◌%◌, ◌^◌, ◌≤◌, ◌<◌, ◌≡◌, ◌≢◌, refl, ap, sym, ◌∙◌, arith, true, false, Bool, List, [], ◌∷◌,
  All,
}
use mockex.Prelude.{
  ◌==◌, if◌then◌else◌, inl, inr, Bool-cases, Option-cases, none, some, ==_of_eq, ==_of_ne,
}
use mockex.Types.{invalid_price}
use mockex.FlatHashMap
use mockex.FlatHashMap.{FlatHashMap, lookup, store, insert}
use mockex.FlatHashMap.Valid.{IsValid, slot_of_find}
use mockex.FlatHashMap.Place.{
  store-IsValid, lookup_of_find, lookup_of_no_find, update_self, update_other,
}
use mockex.FlatHashMap.Clear.{Vacant, create-Vacant}
use mockex.FlatHashMap.Insert.{insert-Inserted}
use mockex.PriceLevelMap.{PriceLevelMap, create, add, leads}
use mockex.PriceLevelMap.Best.{IsAhead, IsAhead-refl, IsAhead-trans, leads_there, leads_not}

-- The best price by lookups alone: it has a level, with the quantity that is kept, and it is ahead of
-- every price that has one.
pub record IsBest (for_bids : Bool) (m : PriceLevelMap) : Type 0 where
  pub level : m.best_price ≢ invalid_price → lookup m.levels m.best_price ≡ some m.best_qty
  pub ahead :
      (q v : ℕ)
      → lookup m.levels q ≡ some v
      → (m.best_price ≢ invalid_price) × IsAhead for_bids m.best_price q

record IsSound (for_bids : Bool) (m : PriceLevelMap) : Type 0 where
  valid : IsValid m.levels
  wide : 4 ≤ m.levels.capacity
  best : IsBest for_bids m

some_injective : {i j : ℕ} → some i ≡ some j → i ≡ j
some_injective h = cc h

-- A write through the pointer that `find` returns.
lookup-store :
    (t : FlatHashMap ℕ) (key i v q : ℕ)
    → IsValid t
    → FlatHashMap.find t key ≡ some i
    → lookup (store t i v) q ≡ (if q == key then some v else lookup t q)
unfolding store FlatHashMap.find
lookup-store t key i v q valid at = elim (Option-cases (FlatHashMap.find t q)) [
  | inl absent ↦
      let other : q ≢ key = λ same. cc (absent, at, ap (FlatHashMap.find t) same) in
      rw (==_of_ne other)
        (lookup_of_no_find (store t i v) q absent ∙ sym (lookup_of_no_find t q absent))
  | inr (j, there) ↦ elim (ℕ_discrete q key) [
    | yes same ↦
        let here : j ≡ i = some_injective (sym there ∙ ap (FlatHashMap.find t) same ∙ at) in
        rw (==_of_eq same)
          (lookup_of_find (store t i v) q j there ∙ ap some (rw here (update_self t.vals i v)))
    | no other ↦
        let apart : j ≢ i = λ e.
          other (
            sym (slot_of_find valid q j there).1 ∙ ap t.keys e ∙ (slot_of_find valid key i at).1) in
        rw (==_of_ne other) (
          lookup_of_find (store t i v) q j there
          ∙ ap some (update_other t.vals v apart)
          ∙ sym (lookup_of_find t q j there))
  ]
]

-- A table in which a price reads a new quantity, and the others what they read before.
record Reads (t : FlatHashMap ℕ) (price new : ℕ) (t' : FlatHashMap ℕ) : Type 0 where
  here : lookup t' price ≡ some new
  there : (q : ℕ) → q ≢ price → lookup t' q ≡ lookup t q

Reads-of :
    {t t' : FlatHashMap ℕ} {price new : ℕ}
    → ((q : ℕ) → lookup t' q ≡ (if q == price then some new else lookup t q))
    → Reads t price new t'
Reads-of {price = price} r = record {
  here = r price ∙ rw (==_of_eq {a = price} refl) refl;
  there = λ q other. r q ∙ rw (==_of_ne other) refl;
}

module _ (for_bids : Bool) (m : PriceLevelMap) (b : IsBest for_bids m) (price new : ℕ)
    (t' : FlatHashMap ℕ) (r : Reads m.levels price new t') where
  -- A level that was there.
  updated-IsBest :
      (old : ℕ)
      → lookup m.levels price ≡ some old
      → IsBest for_bids (record {
        levels = t';
        best_price = m.best_price;
        best_qty = if price == m.best_price then new else m.best_qty;
      })
  updated-IsBest old was = record {
    level = λ ne. elim (ℕ_discrete price m.best_price) [
      | yes same ↦ rw (==_of_eq same, ← same) r.here
      | no other ↦ rw (==_of_ne other) (r.there m.best_price (λ e. other (sym e)) ∙ b.level ne)
    ];
    ahead = λ q v at. elim (ℕ_discrete q price) [
      | yes same ↦ rw same (b.ahead price old was)
      | no other ↦ b.ahead q v (sym (r.there q other) ∙ at)
    ];
  }

  -- A new level that becomes the best.
  leading-IsBest :
      price ≢ invalid_price
      → leads for_bids m price ≡ true
      → IsBest for_bids (record { levels = t'; best_price = price; best_qty = new })
  leading-IsBest low first = record {
    level = λ ne. r.here;
    ahead = λ q v at. elim (ℕ_discrete q price) [
      | yes same ↦ (low, rw same (IsAhead-refl for_bids price))
      | no other ↦
          let (there, before) = b.ahead q v (sym (r.there q other) ∙ at) in
          elim (leads_there for_bids m price first) [
            | inl fresh ↦ absurd (there fresh)
            | inr better ↦ (low, IsAhead-trans for_bids price m.best_price q better before)
          ]
    ];
  }

  -- A new level behind the best.
  following-IsBest :
      lookup m.levels price ≡ none
      → leads for_bids m price ≡ false
      → IsBest for_bids (record m { levels = t' })
  following-IsBest fresh behind =
      let (there, before) = leads_not for_bids m price behind in
      let apart : m.best_price ≢ price =
        λ same. cc (fresh, b.level there, ap (lookup m.levels) same) in
      record {
        level = λ ne. r.there m.best_price apart ∙ b.level ne;
        ahead = λ q v at. elim (ℕ_discrete q price) [
          | yes same ↦ (there, rw same before)
          | no other ↦ b.ahead q v (sym (r.there q other) ∙ at)
        ];
      }

module _ (for_bids : Bool) (m : PriceLevelMap) (price qty : ℕ) (s : IsSound for_bids m)
    (nz : price ≢ 0) (low : price < invalid_price) where
  add-IsSound : IsSound for_bids (add for_bids m price qty)
  unfolding add
  add-IsSound = elim (Option-cases (FlatHashMap.find m.levels price)) [
    | inr (i, at) ↦
        let new = (m.levels.vals i + qty) % 2 ^ 32 in
        let t' = store m.levels i new in
        let r : Reads m.levels price new t' =
          Reads-of (λ q. lookup-store m.levels price i new q s.valid at) in
        rw (at, add)
          (record {
            valid = store-IsValid s.valid i new;
            wide = unfold store in s.wide;
            best =
                updated-IsBest for_bids m s.best price new t' r (m.levels.vals i)
                  (lookup_of_find m.levels price i at);
          })
    | inl absent ↦
        let t' = (insert m.levels price qty).0 in
        let inserted = insert-Inserted s.valid price qty nz s.wide in
        let r : Reads m.levels price qty t' = Reads-of inserted.reads in
        let wide : 4 ≤ t'.capacity = omega (arith, inserted.wide, s.wide) in
        elim (Bool-cases (leads for_bids m price)) [
          | inl first ↦
              rw (absent, first, add)
                (record {
                  valid = inserted.valid;
                  wide = wide;
                  best = leading-IsBest for_bids m s.best price qty t' r (omega arith) first;
                })
          | inr behind ↦
              rw (absent, behind, add)
                (record {
                  valid = inserted.valid;
                  wide = wide;
                  best =
                      following-IsBest for_bids m s.best price qty t' r
                        (lookup_of_no_find m.levels price absent) behind;
                })
        ]
  ]

-- Adds of a price and a quantity, one after the other.
unfoldable pub adds : Bool → PriceLevelMap → List (ℕ × ℕ) → PriceLevelMap
adds for_bids m [] = m
adds for_bids m ((price, qty) ∷ rest) = adds for_bids (add for_bids m price qty) rest

adds-IsSound :
    (for_bids : Bool) (m : PriceLevelMap) (ls : List (ℕ × ℕ))
    → All (λ l. (l.0 ≢ 0) × (l.0 < invalid_price)) ls
    → IsSound for_bids m
    → IsSound for_bids (adds for_bids m ls)
unfolding adds
adds-IsSound for_bids m [] a s = s
adds-IsSound for_bids m ((price, qty) ∷ rest) a s =
    adds-IsSound for_bids (add for_bids m price qty) rest a.1
      (add-IsSound for_bids m price qty s a.0.0 a.0.1)

create-IsSound : (for_bids : Bool) → IsSound for_bids create
unfolding create FlatHashMap.create
create-IsSound for_bids =
    let vacant : Vacant (FlatHashMap.create 0 128) = create-Vacant 0 128 in
    record {
      valid = vacant.valid;
      wide = omega arith;
      best = record { level = λ ne. absurd (ne refl); ahead = λ q v at. cc (at, vacant.reads q) };
    }

-- After any adds to a new map, at prices other than 0 and below the invalid price, the best price has
-- a level, whose quantity is the one that is kept, and is ahead of every price that has a level; and
-- there is a best price if any price has a level.
pub adds-IsBest :
    (for_bids : Bool) (ls : List (ℕ × ℕ))
    → All (λ l. (l.0 ≢ 0) × (l.0 < invalid_price)) ls
    → IsBest for_bids (adds for_bids create ls)
adds-IsBest for_bids ls a = (adds-IsSound for_bids create ls a (create-IsSound for_bids)).best
