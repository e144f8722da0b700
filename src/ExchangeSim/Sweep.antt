-- ===== src/ExchangeSim/Sweep.antt =====
-- One round of the matching loops of src/exchange/exchange_sim.hpp.
use mockex.Prelude.{ℕ, ◌+◌, ◌-◌, ◌<◌, ◌≤◌, ◌≡◌, refl, ap, Bool, true, leb}
use mockex.Prelude.{if◌then◌else◌, [], ◌∷◌, ◌++◌, All, arith, ◌∙◌}
use mockex.Prelude.{zero, suc}
use native.Mathlib.Decide.{dec_lt}
use mockex.StdMap.{StdMap, IsSorted, erase, assign}
use mockex.StdMap.Laws.{assign-IsSorted}
use mockex.Types.{OutboundOrder}
use mockex.ExchangeSim.{RestingOrder, Match, sweep_asks, sweep_bids, fill_one}
use mockex.ExchangeSim.Sides.{total, depth, Outside, Swept, depth-Outside, total_snoc, depth_snoc}
use mockex.ExchangeSim.Sides.{All-snoc, snoc-All, IsSorted-snoc}

-- The prices that a buy, and a sell, may trade at.
abbrev pub at_most : ℕ → ℕ → Bool
at_most limit price = leb price limit

abbrev pub at_least : ℕ → ℕ → Bool
at_least limit price = leb limit price

-- A loop that stops where it starts.
pub stop-Swept :
    (within : ℕ → Bool) (m : Match)
    → (0 < m.remaining → Outside within m.levels)
    → Swept within m.levels m.remaining m
stop-Swept within m out = record {
  left = elim (dec_lt 0 m.remaining) [
    | yes some_left ↦ omega (arith, depth-Outside within m.levels (out some_left))
    | no none_left ↦ omega arith
  ];
  conserved = refl;
  clean = out;
  sorted = λ s. s;
  fewer = λ P a. a;
}

-- How an element stands in a side: the side without it, and the side with another order in place.
pub record Splits (old rest : StdMap RestingOrder) (e : ℕ × RestingOrder) : Type 1 where
  total_eq : total old ≡ total rest + e.1.remaining_qty
  depth_eq :
      (within : ℕ → Bool)
      → depth within old ≡ depth within rest + (if within e.0 then e.1.remaining_qty else 0)
  rest_sorted : IsSorted old → IsSorted rest
  all : (P : ℕ → Type 0) → All (λ f. P f.0) old → All (λ f. P f.0) rest × P e.0
  back : (P : ℕ → Type 0) → All (λ f. P f.0) rest × P e.0 → All (λ f. P f.0) old

pub front-Splits : (rest : StdMap RestingOrder) (e : ℕ × RestingOrder) → Splits (e ∷ rest) rest e
unfolding total depth
front-Splits rest e = record {
  total_eq = omega arith;
  depth_eq = λ within. omega arith;
  rest_sorted = λ s. s.1;
  all = λ P a. (a.1, a.0);
  back = λ P a. (a.1, a.0);
}

pub end-Splits :
    (rest : StdMap RestingOrder) (e : ℕ × RestingOrder) → Splits (rest ++ (e ∷ [])) rest e
end-Splits rest e = record {
  total_eq = total_snoc rest e;
  depth_eq = λ within. depth_snoc within rest e;
  rest_sorted = λ s. (IsSorted-snoc rest e s).0;
  all = λ P a. All-snoc P rest e a;
  back = λ P a. snoc-All P rest e a.0 a.1;
}

-- A resting order that is used up, then the loop over the rest.
pub all-Swept :
    (within : ℕ → Bool) (old rest : StdMap RestingOrder) (e : ℕ × RestingOrder) (qty : ℕ)
    (m : Match)
    → Splits old rest e
    → within e.0 ≡ true
    → e.1.remaining_qty ≤ qty
    → Swept within rest (qty - e.1.remaining_qty) m
    → Swept within old qty m
all-Swept within old rest e qty m split is le s = record {
  left = ground (arith, s.left, split.depth_eq within, is);
  conserved = omega (arith, s.conserved, split.total_eq);
  clean = s.clean;
  sorted = λ o. s.sorted (split.rest_sorted o);
  fewer = λ P a. s.fewer P (split.all P a).0;
}

-- A resting order that is more than the loop needs.
pub part-Swept :
    (within : ℕ → Bool) (old rest new : StdMap RestingOrder) (e : ℕ × RestingOrder) (qty : ℕ)
    (r : RestingOrder) (m : Match)
    → Splits old rest e
    → Splits new rest (e.0, r)
    → within e.0 ≡ true
    → qty < e.1.remaining_qty
    → r.remaining_qty ≡ e.1.remaining_qty - qty
    → assign e.0 r old ≡ new
    → m.levels ≡ assign e.0 r old
    → m.remaining ≡ 0
    → Swept within old qty m
part-Swept within old rest new e qty r m split split' is lt cut wrote levels z = record {
  left = ground (arith, z, split.depth_eq within, is);
  conserved = omega (arith, z, cut, ap total (levels ∙ wrote), split.total_eq, split'.total_eq);
  clean = λ h. absurd (omega arith);
  sorted = λ o. rw levels (assign-IsSorted e.0 r old o);
  fewer = λ P a. rw (levels ∙ wrote) (split'.back P (split.all P a));
}

-- The two outcomes of a fill.
pub fill_one_all :
    (id : ℕ) (m : Match) (price : ℕ) (r : RestingOrder)
    → r.remaining_qty ≤ m.remaining
    → ((fill_one id m price r).levels ≡ erase price m.levels)
      × ((fill_one id m price r).remaining ≡ m.remaining - r.remaining_qty)
unfolding fill_one
fill_one_all id m price r le = ground arith

pub fill_one_part :
    (id : ℕ) (m : Match) (price : ℕ) (r : RestingOrder)
    → m.remaining < r.remaining_qty
    → ((fill_one id m price r).levels
        ≡ assign price (record r { remaining_qty = r.remaining_qty - m.remaining }) m.levels)
      × ((fill_one id m price r).remaining ≡ 0)
unfolding fill_one
fill_one_part id m price r lt = ground arith

pub done_asks :
    (ord : OutboundOrder) (todo : StdMap RestingOrder) (m : Match)
    → m.remaining ≡ 0
    → sweep_asks ord todo m ≡ m
unfolding sweep_asks
done_asks ord [] m z = refl
done_asks ord ((p, r) ∷ todo) m z = ground (arith, z)

pub done_bids :
    (fuel : ℕ) (ord : OutboundOrder) (todo : StdMap RestingOrder) (m : Match)
    → m.remaining ≡ 0
    → sweep_bids fuel ord todo m ≡ m
unfolding sweep_bids
done_bids zero ord todo m z = refl
done_bids (suc fuel) ord [] m z = refl
done_bids (suc fuel) ord ((p, r) ∷ todo) m z = ground (arith, z)
