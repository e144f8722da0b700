-- ===== src/ExchangeSim/Sides.antt =====
-- What the matching loops of src/exchange/exchange_sim.hpp are measured by, and a side of the book
-- taken apart at its far end.
use mockex.Prelude.{ℕ, ◌+◌, ◌-◌, ◌<◌, ◌≡◌, refl, ap, Bool, false}
use mockex.Prelude.{if◌then◌else◌, [], ◌∷◌, ◌++◌, All, arith, ◌∙◌}
use mockex.Prelude.{==_of_eq, suc}
use mockex.StdMap.{StdMap, IsSorted, erase, assign, size}
use mockex.ExchangeSim.{RestingOrder, Match, backward}

-- The quantity that rests on a side, and the part of it at the prices within a limit.
unfoldable pub total : StdMap RestingOrder → ℕ
total [] = 0
total (e ∷ m) = e.1.remaining_qty + total m

unfoldable pub depth : (ℕ → Bool) → StdMap RestingOrder → ℕ
depth within [] = 0
depth within (e ∷ m) = (if within e.0 then e.1.remaining_qty else 0) + depth within m

-- No price of the side is within the limit.
abbrev pub Outside : (ℕ → Bool) → StdMap RestingOrder → Type 0
Outside within m = All (λ e. within e.0 ≡ false) m

-- What a matching loop for a quantity makes of a side: it takes all that is within the limit, as
-- far as the quantity goes, loses nothing, leaves no price within the limit to an order that has
-- quantity left, and adds no price.
pub record Swept (within : ℕ → Bool) (old : StdMap RestingOrder) (qty : ℕ) (m : Match)
    : Type 1 where
  pub left : m.remaining ≡ qty - depth within old
  pub conserved : total m.levels + qty ≡ total old + m.remaining
  pub clean : 0 < m.remaining → Outside within m.levels
  pub sorted : IsSorted old → IsSorted m.levels
  pub fewer : (P : ℕ → Type 0) → All (λ e. P e.0) old → All (λ e. P e.0) m.levels

pub depth-Outside :
    (within : ℕ → Bool) (m : StdMap RestingOrder) → Outside within m → depth within m ≡ 0
unfolding depth
depth-Outside within [] h = refl
depth-Outside within (e ∷ m) h = ground (arith, h.0, depth-Outside within m h.1)

-- A predicate of the prices, of a side with one price more at its end.
pub All-snoc :
    (P : ℕ → Type 0) (m : StdMap RestingOrder) (e : ℕ × RestingOrder)
    → All (λ f. P f.0) (m ++ (e ∷ []))
    → All (λ f. P f.0) m × P e.0
All-snoc P [] e a = (tt, a.0)
All-snoc P (f ∷ m) e a = let (h, p) = All-snoc P m e a.1 in ((a.0, h), p)

pub snoc-All :
    (P : ℕ → Type 0) (m : StdMap RestingOrder) (e : ℕ × RestingOrder)
    → All (λ f. P f.0) m
    → P e.0
    → All (λ f. P f.0) (m ++ (e ∷ []))
snoc-All P [] e a p = (p, tt)
snoc-All P (f ∷ m) e a p = (a.0, snoc-All P m e a.1 p)

pub IsSorted-snoc :
    (m : StdMap RestingOrder) (e : ℕ × RestingOrder)
    → IsSorted (m ++ (e ∷ []))
    → IsSorted m × All (λ f. f.0 < e.0) m
IsSorted-snoc [] e s = (tt, tt)
IsSorted-snoc (f ∷ m) e s =
    let (sorted, below) = IsSorted-snoc m e s.1 in
    let (above, last) = All-snoc (λ k. f.0 < k) m e s.0 in ((above, sorted), (last, below))

pub erase_snoc :
    (m : StdMap RestingOrder) (e : ℕ × RestingOrder)
    → All (λ f. f.0 < e.0) m
    → erase e.0 (m ++ (e ∷ [])) ≡ m
unfolding erase
erase_snoc [] e a = rw (==_of_eq {a = e.0} refl) refl
erase_snoc (f ∷ m) e a = ground (arith, erase_snoc m e)

pub assign_snoc :
    (m : StdMap RestingOrder) (e : ℕ × RestingOrder) (v : RestingOrder)
    → All (λ f. f.0 < e.0) m
    → assign e.0 v (m ++ (e ∷ [])) ≡ m ++ ((e.0, v) ∷ [])
unfolding assign
assign_snoc [] e v a = rw (==_of_eq {a = e.0} refl) refl
assign_snoc (f ∷ m) e v a = ground (arith, assign_snoc m e v)

pub total_snoc :
    (m : StdMap RestingOrder) (e : ℕ × RestingOrder)
    → total (m ++ (e ∷ [])) ≡ total m + e.1.remaining_qty
unfolding total
total_snoc [] e = omega arith
total_snoc (f ∷ m) e = omega (arith, total_snoc m e)

pub depth_snoc :
    (within : ℕ → Bool) (m : StdMap RestingOrder) (e : ℕ × RestingOrder)
    → depth within (m ++ (e ∷ [])) ≡ depth within m + (if within e.0 then e.1.remaining_qty else 0)
unfolding depth
depth_snoc within [] e = omega arith
depth_snoc within (f ∷ m) e = omega (arith, depth_snoc within m e)

-- Backwards twice is forwards.
pub backward_snoc :
    (m : StdMap RestingOrder) (e : ℕ × RestingOrder) → backward (m ++ (e ∷ [])) ≡ e ∷ backward m
unfolding backward
backward_snoc [] e = refl
backward_snoc (f ∷ m) e = rw (backward_snoc m e) refl

pub backward_lem : (m : StdMap RestingOrder) → backward (backward m) ≡ m
unfolding backward
backward_lem [] = refl
backward_lem (e ∷ m) =
    backward_snoc (backward m) e ∙ ap (λ (t : StdMap RestingOrder). e ∷ t) (backward_lem m)

pub size-snoc :
    (m : StdMap RestingOrder) (e : ℕ × RestingOrder) → size (m ++ (e ∷ [])) ≡ suc (size m)
unfolding size
size-snoc [] e = refl
size-snoc (f ∷ m) e = ap suc (size-snoc m e)

pub size-backward : (m : StdMap RestingOrder) → size (backward m) ≡ size m
unfolding backward size
size-backward [] = refl
size-backward (e ∷ m) = size-snoc (backward m) e ∙ ap suc (size-backward m)
