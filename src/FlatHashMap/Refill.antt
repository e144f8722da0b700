-- ===== src/FlatHashMap/Refill.antt =====
-- `insert` of src/common/flat_hash_map.hpp, with the growth that it may start, adds one entry to those
-- that the slots hold and keeps all others.
use native.Mathlib.Numerals.{add-one}
use native.Mathlib.Nat.{pow-suc, one-le-pow}
use native.Mathlib.Decide.{ℕ_discrete}
use mockex.Prelude.{ℕ, zero, suc, ◌+◌, ◌-◌, ◌*◌, ◌^◌, ◌≤◌, ◌<◌, ◌≡◌, ◌≢◌, refl, ap, sym, ◌∙◌, arith}
use mockex.Prelude.{subst, inl, inr, Bool-cases, ◌==◌, if◌then◌else◌, ==_of_eq, ==_of_ne, false}
use mockex.FlatHashMap.{FlatHashMap, reinsert, grow, doubled, insert_at_depth, insert, is_loaded}
use mockex.FlatHashMap.Valid.{used}
use mockex.FlatHashMap.Clear.{used-empty}
use mockex.FlatHashMap.Grow.{used_mono, used-suc_full}
use mockex.FlatHashMap.Totals.{sum, cell, total, sum_mono, sum-zero, cell_full, cell_empty}
use mockex.FlatHashMap.Sound.{Sound, times, place-new}

module _ {ℓ} {V : Type ℓ} {m : FlatHashMap V} (sound : Sound m) where
  -- The new table while `grow` has put back the entries below slot i.
  record Refilled (i : ℕ) (fresh : FlatHashMap V) : Type ℓ where
    ok : Sound fresh
    wide : fresh.capacity ≡ m.capacity * 2
    counted : fresh.size ≡ used m.keys i
    weighs : (w : ℕ → V → ℕ) → total w fresh ≡ sum (cell w m) i

  Refilled-few :
      (fresh : FlatHashMap V) (i : ℕ) → Refilled i fresh → i < m.capacity → fresh.size < m.capacity
  Refilled-few fresh i r lt = omega (
    arith,
    r.counted,
    used_mono m.keys i (2 ^ sound.bits) (omega (arith, sound.power)),
    sound.counted,
    sound.roomy,
    sound.power,
  )

  -- No slot below i holds the key of slot i.
  not_yet :
      (fresh : FlatHashMap V) (i : ℕ)
      → Refilled i fresh
      → i < m.capacity
      → m.keys i ≢ 0
      → times (m.keys i) fresh ≡ 0
  unfolding sum
  not_yet fresh i r lt nz =
      let w : ℕ → V → ℕ = λ k _. if k == m.keys i then 1 else 0 in
      let one : w (m.keys i) (m.vals i) ≡ 1 = rw (==_of_eq {a = m.keys i} refl) refl in
      let far : m.capacity - suc i + suc i ≡ m.capacity = omega arith in
      let up_to : sum (cell w m) (suc i) ≤ sum (cell w m) m.capacity =
        rw far at (sum_mono (cell w m) (suc i) (m.capacity - suc i)) in
      omega (arith, r.weighs w, cell_full w m i nz, one, up_to, sound.once (m.keys i))

  reinsert_slot :
      (fresh : FlatHashMap V) (i : ℕ)
      → Refilled i fresh
      → i < m.capacity
      → Refilled
          (suc i)
          (if m.keys i == 0 then fresh else (insert_at_depth 1 fresh (m.keys i) (m.vals i)).0)
  unfolding used sum insert_at_depth
  reinsert_slot fresh i r lt = elim (ℕ_discrete (m.keys i) 0) [
    | yes z ↦ rw (==_of_eq z) (record {
      ok = r.ok;
      wide = r.wide;
      counted = rw (==_of_eq z) (omega (arith, r.counted));
      weighs = λ w. omega (arith, r.weighs w, cell_empty w m i z);
    })
    | no nz ↦
        let few : fresh.size < m.capacity = Refilled-few fresh i r lt in
        let light : is_loaded fresh ≡ false = ground (arith, r.wide) in
        let (ok, same, size, weighs) =
          place-new r.ok (m.keys i) (m.vals i) nz (not_yet fresh i r lt nz)
            (omega (arith, r.wide)) in
        rw (==_of_ne nz, insert_at_depth, light)
          (record {
            ok = ok;
            wide = same ∙ r.wide;
            counted = omega (arith, size, r.counted, used-suc_full m.keys i nz);
            weighs = λ w. omega (arith, weighs w, r.weighs w, cell_full w m i nz);
          })
  ]

  reinsert-Refilled :
      (n i : ℕ) (fresh : FlatHashMap V)
      → i + n ≡ m.capacity
      → Refilled i fresh
      → Refilled m.capacity (reinsert (insert_at_depth 1) m.keys m.vals n i fresh)
  unfolding reinsert
  reinsert-Refilled zero i fresh e r = subst (λ c. Refilled c fresh) (omega arith) r
  reinsert-Refilled (suc n) i fresh e r =
      reinsert-Refilled n (i + 1) _ (omega arith)
        (rw add-one (reinsert_slot fresh i r (omega arith)))

  doubled-Refilled : Refilled 0 (doubled m)
  unfolding used sum
  doubled-Refilled =
      let double : 2 ^ suc sound.bits ≡ m.capacity * 2 =
        pow-suc 2 sound.bits ∙ ap (λ (t : ℕ). t * 2) (sym sound.power) in
      let nothing = λ (w : ℕ → V → ℕ).
        sum-zero (cell w (doubled m)) (m.capacity * 2) (λ i. cell_empty w (doubled m) i refl) in
      record {
        ok = record {
          bits = suc sound.bits;
          power = sym double;
          masked = ap (λ (t : ℕ). t - 1) (sym double);
          counted = sym (used-empty (2 ^ suc sound.bits));
          roomy = one-le-pow (suc sound.bits) 2 (omega arith);
          once = λ k. omega (arith, nothing (λ j _. if j == k then 1 else 0));
        };
        wide = refl;
        counted = refl;
        weighs = nothing;
      }

  -- `insert` under a key that no slot holds.
  pub record Added (key : ℕ) (v : V) (m' : FlatHashMap V) : Type ℓ where
    pub ok : Sound m'
    pub wide : m.capacity ≤ m'.capacity
    pub size : m'.size ≡ m.size + 1
    pub weighs : (w : ℕ → V → ℕ) → total w m' ≡ total w m + w key v

  pub insert-Added :
      (key : ℕ) (v : V)
      → key ≢ 0
      → times key m ≡ 0
      → 4 ≤ m.capacity
      → Added key v (insert m key v).0
  unfolding insert insert_at_depth grow
  insert-Added key v nz gone wide = elim (Bool-cases (is_loaded m)) [
    | inl loaded ↦
        let r = reinsert-Refilled m.capacity 0 (doubled m) (omega arith) doubled-Refilled in
        let count : ℕ → V → ℕ = λ j _. if j == key then 1 else 0 in
        let size : used m.keys m.capacity ≡ m.size =
          ap (used m.keys) sound.power ∙ sym sound.counted in
        let (ok, same, size', weighs) =
          place-new r.ok key v nz (omega (arith, r.weighs count, gone))
            (omega (arith, r.wide, r.counted, size, sound.roomy, sound.power)) in
        rw (insert, insert_at_depth, ==_of_ne nz, loaded)
          (record {
            ok = ok;
            wide = omega (arith, same, r.wide);
            size = omega (arith, size', r.counted, size);
            weighs = λ w. omega (arith, weighs w, r.weighs w);
          })
    | inr light ↦
        let (ok, same, size, weighs) = place-new sound key v nz gone (ground arith) in
        rw (insert, insert_at_depth, ==_of_ne nz, light)
          (record { ok = ok; wide = omega (arith, same); size = size; weighs = weighs })
  ]
