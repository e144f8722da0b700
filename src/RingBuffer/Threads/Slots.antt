-- ===== src/RingBuffer/Threads/Slots.antt =====
-- The slots of the ring of src/common/ring_buffer.hpp, named by how many items went before.
use native.Mathlib.Nat.{mod-add-div, mod-add-mod}
use mockex.Prelude.{ℕ, zero, suc, ◌+◌, ◌-◌, ◌%◌, ◌^◌, ◌≤◌, ◌<◌, ◌≡◌, ◌≢◌, refl, arith, ap, ap₂, ◌∙◌}
use mockex.Prelude.{List, [], ◌∷◌, ◌++◌, length}
use mockex.Prelude.Bits.{bit_and_mask}
use mockex.FlatHashMap.{update}
use mockex.RingBuffer.{next_index}

-- Less than a turn apart, equal slots are equal counts.
pub same_slot : (cap a b : ℕ) → a ≤ b → b < a + cap → a % cap ≡ b % cap → a ≡ b
same_slot cap a b h k e = grind (arith, mod-add-div a cap, mod-add-div b cap)

pub next_index_mod : (bits i : ℕ) → next_index (2 ^ bits - 1) (i % 2 ^ bits) ≡ suc i % 2 ^ bits
unfolding next_index
next_index_mod bits i =
    bit_and_mask bits (i % 2 ^ bits + 1)
    ∙ mod-add-mod i (2 ^ bits) 1
    ∙ ap (λ (n : ℕ). n % 2 ^ bits) (omega arith)

module _ {T : Type 0} where
  -- The items in so many slots from a count on.
  unfoldable pub slots : (ℕ → T) → ℕ → ℕ → ℕ → List T
  slots buf cap zero k = []
  slots buf cap (suc n) k = buf (k % cap) ∷ slots buf cap n (suc k)

  -- A write to a slot that is not among them.
  pub slots-update :
      (buf : ℕ → T) (cap n k b : ℕ) (x : T)
      → k + n ≤ b
      → b < k + cap
      → slots (update buf (b % cap) x) cap n k ≡ slots buf cap n k
  unfolding slots
  slots-update buf cap zero k b x h l = refl
  slots-update buf cap (suc n) k b x h l =
      let other : k % cap ≢ b % cap = λ e. omega (arith, same_slot cap k b (omega arith) l e) in
      ap₂ (λ y ys. y ∷ ys) (ground (arith, other))
        (slots-update buf cap n (suc k) b x (omega arith) (omega arith))

  -- One slot more, at the end.
  pub slots-suc :
      (buf : ℕ → T) (cap n k b : ℕ)
      → b ≡ k + n
      → slots buf cap (suc n) k ≡ slots buf cap n k ++ (buf (b % cap) ∷ [])
  unfolding slots
  slots-suc buf cap zero k b e = let here : b ≡ k = omega arith in rw here refl
  slots-suc buf cap (suc n) k b e =
      ap (λ ys. buf (k % cap) ∷ ys) (slots-suc buf cap n (suc k) b (omega arith))

  pub length-slots : (buf : ℕ → T) (cap n k : ℕ) → length (slots buf cap n k) ≡ n
  unfolding slots
  length-slots buf cap zero k = refl
  length-slots buf cap (suc n) k = ap suc (length-slots buf cap n (suc k))
