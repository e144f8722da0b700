-- ===== src/FlatHashMap/Clear.antt =====
-- The constructor and `clear` of src/common/flat_hash_map.hpp: valid tables that hold nothing.
use native.Mathlib.Nat.{pow-suc, one-le-pow}
use mockex.Prelude.{ℕ, zero, suc, ◌-◌, ◌*◌, ◌/◌, ◌^◌, ◌≤◌, ◌≡◌, refl, ap, sym}
use mockex.Prelude.{ltb, arith, inl, inr, Option-cases, none, Bool-cases}
use mockex.FlatHashMap.{FlatHashMap, find, lookup, create, round_up, clear}
use mockex.FlatHashMap.Valid.{IsValid, used, slot_of_find}
use mockex.FlatHashMap.Place.{lookup_of_no_find}

pub used-empty : (n : ℕ) → used (λ _. 0) n ≡ 0
unfolding used
used-empty zero = refl
used-empty (suc n) = ground (arith, used-empty n)

-- A valid table in which no key reads anything.
pub record Vacant {ℓ} {V : Type ℓ} (m : FlatHashMap V) : Type ℓ where
  pub valid : IsValid m
  pub reads : (q : ℕ) → lookup m q ≡ none

module _ {ℓ} {V : Type ℓ} where
  pub clear-Vacant :
      (m : FlatHashMap V) (bits : ℕ)
      → m.capacity ≡ 2 ^ bits
      → m.mask ≡ 2 ^ bits - 1
      → Vacant (clear m)
  unfolding clear
  clear-Vacant m bits power masked = record { valid = valid; reads = reads }
    where
      valid : IsValid (clear m)
      valid = record {
        bits = bits;
        power = power;
        masked = masked;
        counted = sym (used-empty (2 ^ bits));
        roomy = one-le-pow bits 2 (omega arith);
        reached = λ i lt nz. absurd (nz refl);
      }

      reads : (q : ℕ) → lookup (clear m) q ≡ none
      reads q = elim (Option-cases (find (clear m) q)) [
        | inl absent ↦ lookup_of_no_find (clear m) q absent
        | inr (j, there) ↦ let (_, at, nz) = slot_of_find valid q j there in absurd (nz (sym at))
      ]

round_up_pow : (fuel desired b : ℕ) → (b' : ℕ) × (round_up fuel desired (2 ^ b) ≡ 2 ^ b') × (b ≤ b')
unfolding round_up
round_up_pow zero desired b = (b, refl, omega arith)
round_up_pow (suc fuel) desired b = elim (Bool-cases (ltb (2 ^ b) desired)) [
  | inl below ↦
      let (b', e, le) = round_up_pow fuel desired (suc b) in
      (b', rw (round_up, below, ← pow-suc 2 b) e, omega arith)
  | inr enough ↦ (b, rw (round_up, enough), omega arith)
]

-- The constructor makes a table of a power of two slots that is valid and holds nothing.
pub create-Vacant {ℓ} : {V : Type ℓ} (blank : V) (capacity : ℕ) → Vacant (create blank capacity)
unfolding create clear
create-Vacant blank capacity =
    let (bits, e, _) = round_up_pow 64 (capacity * 10 / 7) 0 in
    clear-Vacant (create blank capacity) bits e (ap (λ (t : ℕ). t - 1) e)
