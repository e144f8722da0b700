-- ===== src/RingBuffer/Queue.antt =====
-- The ring of src/common/ring_buffer.hpp is a first-in first-out queue of one item less than its
-- capacity.
use native.Mathlib.Nat.{one-le-pow, mod-eq_of_lt, mod_self}
use mockex.Prelude.{ℕ, zero, suc, ◌+◌, ◌-◌, ◌%◌, ◌^◌, ◌<◌, ◌≤◌, ◌≡◌, ◌≢◌, refl, ap, sym, ◌∙◌, arith}
use mockex.Prelude.{
  Bool, true, false, ◌==◌, ltb, if◌then◌else◌, Option, none, some, List, [], ◌∷◌, ◌++◌,
}
use mockex.Prelude.{ap₂, length, drop, get_or, ==_of_eq, ==_of_ne, length-append}
use native.Mathlib.Decide.{dec_lt, ℕ_discrete}
use mockex.Prelude.Bits.{bit_and_mask}
use mockex.FlatHashMap.{update}
use mockex.RingBuffer.{SpscRingBuffer, create, try_push, try_pop, next_index}

-- The index some steps on, on a ring of so many slots.
abbrev walk : ℕ → ℕ → ℕ → ℕ
walk cap n t = if ltb (t + n) cap then t + n else t + n - cap

next_index_lem : (bits i : ℕ) → i < 2 ^ bits → next_index (2 ^ bits - 1) i ≡ walk (2 ^ bits) 1 i
unfolding next_index
next_index_lem bits i h =
    let low = bit_and_mask bits (i + 1) in
    let room = one-le-pow bits 2 (omega arith) in
    elim (dec_lt (i + 1) (2 ^ bits)) [
      | yes inside ↦ ground (arith, low, mod-eq_of_lt inside)
      | no wraps ↦
          let last : i + 1 ≡ 2 ^ bits = omega arith in
          let zeroed = ap (λ (x : ℕ). x % 2 ^ bits) last ∙ mod_self (2 ^ bits) in
          ground (arith, low, zeroed, last)
    ]

walk-suc : (cap n t : ℕ) → t < cap → n < cap → walk cap n (walk cap 1 t) ≡ walk cap (suc n) t
walk-suc cap n t h k = ground arith

suc-walk : (cap n t : ℕ) → t < cap → n < cap → walk cap 1 (walk cap n t) ≡ walk cap (suc n) t
suc-walk cap n t h k = ground arith

walk-lt : (cap n t : ℕ) → t < cap → n ≤ cap → walk cap n t < cap
walk-lt cap n t h k = ground arith

-- Fewer steps than slots, but some, lead elsewhere; a full turn leads back.
walk_ne : (cap n t : ℕ) → t < cap → 0 < n → n < cap → walk cap n t ≢ t
walk_ne cap n t h one_at_least few = ground arith

-- The calls of both threads, in the order in which they take effect, and what each returns.
pub data Call {ℓ} (T : Type ℓ) : Type ℓ where
  push : T → Call T
  pop : Call T

pub data Answer {ℓ} (T : Type ℓ) : Type ℓ where
  pushed : Bool → Answer T
  popped : Option T → Answer T

module _ {ℓ} {T : Type ℓ} where
  -- The items in so many slots from an index on.
  contents : (ℕ → T) → ℕ → ℕ → ℕ → List T
  contents buf cap zero t = []
  contents buf cap (suc n) t = buf t ∷ contents buf cap n (walk cap 1 t)

  -- A write behind the last of them adds an item at the end.
  contents-update :
      (buf : ℕ → T) (cap n t i : ℕ) (x : T)
      → t < cap
      → n < cap
      → i ≡ walk cap n t
      → contents (update buf i x) cap (suc n) t ≡ contents buf cap n t ++ (x ∷ [])
  unfolding contents
  contents-update buf cap zero t i x h k at = ap (λ y. y ∷ []) (ground (arith, at))
  contents-update buf cap (suc n) t i x h k at =
      let here : update buf i x t ≡ buf t =
        ground (arith, at, walk_ne cap (suc n) t h (omega arith) k) in
      ap₂ (λ y ys. y ∷ ys) here
        (contents-update buf cap n (walk cap 1 t) i x (walk-lt cap 1 t h (omega arith))
          (omega arith) (at ∙ sym (walk-suc cap n t h (omega arith))))

  -- The ring holds these items, the oldest first.
  record Holds (bits : ℕ) (r : SpscRingBuffer T) (items : List T) : Type ℓ where
    mask_ok : r.mask ≡ 2 ^ bits - 1
    tail_ok : r.tail < 2 ^ bits
    few : length items < 2 ^ bits
    head_ok : r.head ≡ walk (2 ^ bits) (length items) r.tail
    same : contents r.buf (2 ^ bits) (length items) r.tail ≡ items

  -- What a bounded queue answers to a push and to a pop.
  abbrev pub queue_push : ℕ → List T → T → List T × Bool
  queue_push bits items x =
      if length items + 1 == 2 ^ bits then (items, false) else (items ++ (x ∷ []), true)

  abbrev pub queue_pop : List T → List T × Option T
  queue_pop [] = ([], none)
  queue_pop (x ∷ items) = (items, some x)

  push-Holds :
      (bits : ℕ) (r : SpscRingBuffer T) (items : List T) (x : T)
      → Holds bits r items
      → Holds bits (try_push r x).0 (queue_push bits items x).0
        × ((try_push r x).1 ≡ (queue_push bits items x).1)
  unfolding try_push
  push-Holds bits r items x h =
      let n = length items in
      let cap = 2 ^ bits in
      let next : next_index r.mask r.head ≡ walk cap (suc n) r.tail =
        rw (h.mask_ok, h.head_ok)
          (next_index_lem bits (walk cap n r.tail)
              (walk-lt cap n r.tail h.tail_ok (omega (arith, h.few)))
            ∙ suc-walk cap n r.tail h.tail_ok h.few) in
      let longer : length (items ++ (x ∷ [])) ≡ suc n =
        omega (arith, length-append items (x ∷ [])) in
      elim (ℕ_discrete (n + 1) cap) [
        | yes full ↦
            let back : next_index r.mask r.head ≡ r.tail = next ∙ ground (arith, h.tail_ok, full) in
            rw (==_of_eq full, ==_of_eq back) (h, refl)
        | no room ↦
            let other : next_index r.mask r.head ≢ r.tail = λ e.
              walk_ne cap (suc n) r.tail h.tail_ok (omega arith) (omega (arith, h.few))
                (sym next ∙ e) in
            rw (==_of_ne room, ==_of_ne other)
              (
                record {
                  mask_ok = h.mask_ok;
                  tail_ok = h.tail_ok;
                  few = omega (arith, h.few, length-append items (x ∷ []));
                  head_ok = next ∙ ap (λ (k : ℕ). walk cap k r.tail) (sym longer);
                  same =
                      ap (λ (k : ℕ). contents (update r.buf r.head x) cap k r.tail) longer
                      ∙ contents-update r.buf cap n r.tail r.head x h.tail_ok h.few h.head_ok
                      ∙ ap (λ (ys : List T). ys ++ (x ∷ [])) h.same;
                },
                refl,
              )
      ]

  pop-Holds :
      (bits : ℕ) (r : SpscRingBuffer T) (items : List T)
      → Holds bits r items
      → Holds bits (try_pop r).0 (queue_pop items).0 × ((try_pop r).1 ≡ (queue_pop items).1)
  unfolding try_pop contents
  pop-Holds bits r [] h =
      let back : r.tail ≡ r.head = ground (arith, h.head_ok, h.tail_ok) in
      rw (try_pop, ==_of_eq back) (h, refl)
  pop-Holds bits r (x ∷ items) h =
      let n = length items in
      let cap = 2 ^ bits in
      let other : r.tail ≢ r.head =
        λ e. walk_ne cap (suc n) r.tail h.tail_ok (omega arith) h.few (sym (e ∙ h.head_ok)) in
      let next : next_index r.mask r.tail ≡ walk cap 1 r.tail =
        rw h.mask_ok (next_index_lem bits r.tail h.tail_ok) in
      rw (try_pop, ==_of_ne other)
        (
          record {
            mask_ok = h.mask_ok;
            tail_ok = rw next (walk-lt cap 1 r.tail h.tail_ok (omega (arith, h.few)));
            few = omega (arith, h.few);
            head_ok =
                rw next (h.head_ok ∙ sym (walk-suc cap n r.tail h.tail_ok (omega (arith, h.few))));
            same = rw next (ap (drop 1) h.same);
          },
          ap some (ap (λ (ys : List T). get_or ys 0 x) h.same),
        )

  create-Holds : (blank : T) (bits : ℕ) → Holds bits (create blank bits) []
  unfolding create contents
  create-Holds blank bits = record {
    mask_ok = refl;
    tail_ok = one-le-pow bits 2 (omega arith);
    few = one-le-pow bits 2 (omega arith);
    head_ok = ground arith;
    same = refl;
  }

  unfoldable pub run : SpscRingBuffer T → List (Call T) → List (Answer T)
  run r [] = []
  run r (push x ∷ calls) = let (r', ok) = try_push r x in pushed ok ∷ run r' calls
  run r (pop ∷ calls) = let (r', out) = try_pop r in popped out ∷ run r' calls

  unfoldable pub run_queue : ℕ → List T → List (Call T) → List (Answer T)
  run_queue bits items [] = []
  run_queue bits items (push x ∷ calls) =
      let (items', ok) = queue_push bits items x in pushed ok ∷ run_queue bits items' calls
  run_queue bits items (pop ∷ calls) =
      let (items', out) = queue_pop items in popped out ∷ run_queue bits items' calls

  run-Holds :
      (bits : ℕ) (r : SpscRingBuffer T) (items : List T) (calls : List (Call T))
      → Holds bits r items
      → run r calls ≡ run_queue bits items calls
  unfolding run run_queue
  run-Holds bits r items [] h = refl
  run-Holds bits r items (push x ∷ calls) h =
      let (held, ok) = push-Holds bits r items x h in
      ap₂ (λ a rest. pushed a ∷ rest) ok
        (run-Holds bits (try_push r x).0 (queue_push bits items x).0 calls held)
  run-Holds bits r items (pop ∷ calls) h =
      let (held, out) = pop-Holds bits r items h in
      ap₂ (λ a rest. popped a ∷ rest) out
        (run-Holds bits (try_pop r).0 (queue_pop items).0 calls held)

  -- A new ring of 2 ^ `bits` slots answers any sequence of pushes and pops, each taken as one step,
  -- as a first-in first-out queue does that refuses a push when it holds one item less than 2 ^ `bits`.
  pub run_is_queue :
      (blank : T) (bits : ℕ) (calls : List (Call T))
      → run (create blank bits) calls ≡ run_queue bits [] calls
  run_is_queue blank bits calls =
      run-Holds bits (create blank bits) [] calls (create-Holds blank bits)
