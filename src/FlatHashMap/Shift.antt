-- ===== src/FlatHashMap/Shift.antt =====
-- `erase` of src/common/flat_hash_map.hpp takes exactly one entry out of the slots: its backward shift
-- may leave an entry out of reach, but loses none and doubles none.
use native.Mathlib.Decide.{dec_lt}
use native.Mathlib.Nat.{mod-eq_of_lt, add-zero, mod-add-mod, mod-lt, mod_self}
use mockex.Prelude.{ℕ, zero, suc, ◌+◌, ◌-◌, ◌%◌, ◌^◌, ◌≤◌, ◌<◌, ◌≡◌, ◌≢◌, refl, ap, sym, ◌∙◌, arith}
use mockex.Prelude.{inl, inr, Bool-cases, ◌==◌, if◌then◌else◌, ==_of_eq, ==_of_ne, some}
use mockex.FlatHashMap.{
  FlatHashMap, backward_shift, clear_slot, move_back, next_slot, distance, erase,
}
use mockex.FlatHashMap.{find}
use mockex.FlatHashMap.Probing.{next_slot-lt, next_slot_mod}
use mockex.FlatHashMap.Valid.{used, empty_slot, steps_between}
use mockex.FlatHashMap.Place.{update_other}
use mockex.FlatHashMap.Totals.{sum, cell, total, total-clear_slot, total-move_back, cell_full}
use mockex.FlatHashMap.Sound.{Sound, slot_of_find_sound}

module _ {ℓ} {V : Type ℓ} where
  -- A table of 2 ^ k slots, a slot that is to be given up, and an empty slot some steps behind it.
  record Shifting (k d e : ℕ) (m : FlatHashMap V) (idx : ℕ) : Type ℓ where
    power : m.capacity ≡ 2 ^ k
    masked : m.mask ≡ 2 ^ k - 1
    inside : idx < 2 ^ k
    full : m.keys idx ≢ 0
    ends : m.keys e ≡ 0
    ahead : (idx + d) % 2 ^ k ≡ e

  -- What a shift leaves: the table's size and shape, and all entries but that of the slot given up.
  record Shifted (m : FlatHashMap V) (idx : ℕ) (m' : FlatHashMap V) : Type ℓ where
    capacity : m'.capacity ≡ m.capacity
    mask : m'.mask ≡ m.mask
    size : m'.size ≡ m.size
    weighs : (w : ℕ → V → ℕ) → total w m' + cell w m idx ≡ total w m

  cleared :
      {k d e : ℕ} {m : FlatHashMap V} {idx : ℕ}
      → Shifting k d e m idx
      → Shifted m idx (clear_slot m idx)
  cleared {m} {idx} s = record {
    capacity = refl;
    mask = refl;
    size = refl;
    weighs = λ w. total-clear_slot w m idx (omega (arith, s.inside, s.power));
  }

  next_at :
      {k d e : ℕ} {m : FlatHashMap V} {idx : ℕ}
      → Shifting k (suc d) e m idx
      → (next_slot m.mask idx + d) % 2 ^ k ≡ e
  next_at {k} {d} {e} {m} {idx} s =
      rw (s.masked, next_slot_mod, mod-add-mod)
        (ap (λ (t : ℕ). t % 2 ^ k) (let r : idx + 1 + d ≡ idx + suc d = omega arith in r) ∙ s.ahead)

  not_at_end : {k d e : ℕ} {m : FlatHashMap V} {idx : ℕ} → Shifting k d e m idx → e ≢ idx
  not_at_end {m} s same = s.full (ap m.keys (sym same) ∙ s.ends)

  next_apart :
      {k d e : ℕ} {m : FlatHashMap V} {idx : ℕ}
      → Shifting k (suc d) e m idx
      → next_slot m.mask idx ≢ idx
  next_apart {k} {d} {e} {m} {idx} s same =
      let turn : (idx + 1) % 2 ^ k ≡ idx = sym (next_slot_mod k idx) ∙ rw (← s.masked) same in
      let e_inside : e < 2 ^ k = rw (← s.ahead) (mod-lt (idx + suc d) (omega (arith, s.inside))) in
      elim (dec_lt (idx + 1) (2 ^ k)) [
        | yes more ↦ omega (arith, turn, mod-eq_of_lt more)
        | no last ↦
            let whole : idx + 1 ≡ 2 ^ k = omega (arith, s.inside) in
            let zeroed : (idx + 1) % 2 ^ k ≡ 0 =
              ap (λ (t : ℕ). t % 2 ^ k) whole ∙ mod_self (2 ^ k) in
            not_at_end s (omega (arith, turn, zeroed, whole, e_inside))
      ]

  moved-Shifting :
      {k d e : ℕ} {m : FlatHashMap V} {idx : ℕ} (next : ℕ)
      → next_slot m.mask idx ≡ next
      → m.keys next ≢ 0
      → Shifting k (suc d) e m idx
      → Shifting k d e (move_back m idx next) next
  moved-Shifting {k} {d} {e} {m} {idx} next at full s = record {
    power = s.power;
    masked = s.masked;
    inside = rw (← at, s.masked) (next_slot-lt k idx);
    full = rw (update_other m.keys (m.keys next) (λ same. next_apart s (at ∙ same))) full;
    ends = rw (update_other m.keys (m.keys next) (not_at_end s)) s.ends;
    ahead = rw (← at) (next_at s);
  }

  -- One round moves the entry behind the slot into it, and goes on there.
  moved-Shifted :
      {k d e : ℕ} {m m' : FlatHashMap V} {idx : ℕ} (next : ℕ)
      → next_slot m.mask idx ≡ next
      → Shifting k (suc d) e m idx
      → Shifted (move_back m idx next) next m'
      → Shifted m idx m'
  moved-Shifted {m} {idx} next at s r = record {
    capacity = r.capacity;
    mask = r.mask;
    size = r.size;
    weighs = λ w.
        let (moved, kept) =
          total-move_back w m idx next (omega (arith, s.inside, s.power))
            (λ same. next_apart s (at ∙ same)) in
        omega (arith, r.weighs w, moved, kept);
  }

  backward_shift-Shifted :
      (fuel k d e : ℕ) (m : FlatHashMap V) (idx : ℕ)
      → d ≤ fuel
      → Shifting k d e m idx
      → Shifted m idx (backward_shift fuel m idx)
  unfolding backward_shift
  backward_shift-Shifted fuel k zero e m idx few s = absurd (
      not_at_end s (sym s.ahead ∙ ap (λ (t : ℕ). t % 2 ^ k) (add-zero idx) ∙ mod-eq_of_lt s.inside))
  backward_shift-Shifted zero k (suc d) e m idx few s = absurd (omega arith)
  backward_shift-Shifted (suc fuel) k (suc d) e m idx few s =
      let next = next_slot m.mask idx in
      elim (Bool-cases (m.keys next == 0)) [
        | inl z ↦ rw (backward_shift, z) (cleared s)
        | inr full ↦ elim (Bool-cases (distance m next == 0)) [
          | inl home ↦ rw (backward_shift, full, home) (cleared s)
          | inr away ↦
              rw (backward_shift, full, away)
                (moved-Shifted next refl s (
                  backward_shift-Shifted fuel k d e (move_back m idx next) next (omega arith)
                    (moved-Shifting next refl (λ z. cc (==_of_eq z, full)) s)))
        ]
      ]

  used-sum : (m : FlatHashMap V) (n : ℕ) → used m.keys n ≡ sum (cell (λ _ _. 1) m) n
  unfolding used sum cell
  used-sum m zero = refl
  used-sum m (suc n) = ap (λ (t : ℕ). (if m.keys n == 0 then 0 else 1) + t) (used-sum m n)

  abbrev one_fewer : FlatHashMap V → FlatHashMap V
  one_fewer m = record m { size = (m.size + 2 ^ 64 - 1) % 2 ^ 64 }

  cell-one_fewer : (w : ℕ → V → ℕ) (m : FlatHashMap V) → cell w (one_fewer m) ≡ cell w m
  unfolding cell
  cell-one_fewer w m = refl

  -- `erase` of a key with this value.
  pub record Erased (m : FlatHashMap V) (key : ℕ) (v : V) (m' : FlatHashMap V) : Type ℓ where
    pub ok : Sound m'
    pub capacity : m'.capacity ≡ m.capacity
    pub size : m'.size + 1 ≡ m.size
    pub weighs : (w : ℕ → V → ℕ) → total w m' + w key v ≡ total w m

  shifted :
      {m : FlatHashMap V} (sound : Sound m) (i : ℕ)
      → i < m.capacity
      → m.keys i ≢ 0
      → Shifted (one_fewer m) i (backward_shift m.capacity (one_fewer m) i)
  shifted {m} sound i lt nz =
      let cap = 2 ^ sound.bits in
      let (e, inside, z) = empty_slot m.keys cap (omega (arith, sound.counted, sound.roomy)) in
      let (d, few, at) = steps_between i e cap (omega (arith, sound.power)) inside in
      backward_shift-Shifted m.capacity sound.bits d e (one_fewer m) i (omega (arith, sound.power))
        (record {
          power = sound.power;
          masked = sound.masked;
          inside = omega (arith, sound.power);
          full = nz;
          ends = z;
          ahead = at;
        })

  -- On a table in which each key has one slot at most and fewer than 2 ^ 64 are taken, `erase` of a
  -- key that is found takes out its entry and no other: whatever the entries are given as weights,
  -- the sum falls by the weight of that entry, also where the backward shift leaves some out of
  -- reach; the count falls by one, the capacity stays, and each key still has one slot at most.
  pub erase-Erased :
      {m : FlatHashMap V} (sound : Sound m) (key i : ℕ)
      → m.size < 2 ^ 64
      → find m key ≡ some i
      → Erased m key (m.vals i) (erase m key).0
  unfolding erase
  erase-Erased {m} sound key i small found =
      let (lt, there, nz, at) = slot_of_find_sound sound key i found in
      let full : m.keys i ≢ 0 = λ z. nz (sym there ∙ z) in
      let r = shifted sound i lt full in
      let m' = backward_shift m.capacity (one_fewer m) i in
      let weighs : (w : ℕ → V → ℕ) → total w m' + w key (m.vals i) ≡ total w m = λ w.
        let here : cell w m i ≡ w key (m.vals i) =
          cell_full w m i full ∙ ap (λ (k : ℕ). w k (m.vals i)) there in
        omega (
          arith,
          r.weighs w,
          ap (λ (f : ℕ → ℕ). f i) (cell-one_fewer w m),
          ap (λ (f : ℕ → ℕ). sum f m.capacity) (cell-one_fewer w m),
          here,
        ) in
      let slots_of : used m.keys (2 ^ sound.bits) ≡ total (λ _ _. 1) m =
        used-sum m (2 ^ sound.bits) ∙ ap (sum (cell (λ _ _. 1) m)) (sym sound.power) in
      let slots_of' : used m'.keys (2 ^ sound.bits) ≡ total (λ _ _. 1) m' =
        used-sum m' (2 ^ sound.bits)
        ∙ ap (sum (cell (λ _ _. 1) m')) (sym sound.power ∙ sym r.capacity) in
      let size : m'.size + 1 ≡ m.size =
        omega (arith, r.size, sound.counted, slots_of, weighs (λ _ _. 1), small) in
      rw (erase, ==_of_ne nz, at)
        (record {
          ok = record {
            bits = sound.bits;
            power = r.capacity ∙ sound.power;
            masked = r.mask ∙ sound.masked;
            counted = omega (arith, size, sound.counted, slots_of, slots_of', weighs (λ _ _. 1));
            roomy = omega (arith, size, sound.roomy);
            once = λ k. omega (arith, sound.once k, weighs (λ j _. if j == k then 1 else 0));
          };
          capacity = r.capacity;
          size = size;
          weighs = weighs;
        })
