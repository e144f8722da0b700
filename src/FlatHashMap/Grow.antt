-- ===== src/FlatHashMap/Grow.antt =====
-- `grow` of src/common/flat_hash_map.hpp keeps every entry.
use native.Mathlib.Numerals.{add-one}
use native.Mathlib.Nat.{pow-suc}
use native.Mathlib.Decide.{ℕ_discrete}
use mockex.Prelude.{ℕ, zero, suc, ◌+◌, ◌-◌, ◌*◌, ◌^◌, ◌≤◌, ◌<◌, ◌≡◌, refl, ap, ◌≢◌, ◌∙◌, sym}
use mockex.Prelude.{
  ◌==◌, ltb, if◌then◌else◌, arith, inl, inr, Option, none, some, Option-cases, true,
}
use mockex.Prelude.{Bool, subst, lt→ltb, false, ==_of_eq, ==_of_ne}
use mockex.FlatHashMap.{FlatHashMap, locate, find}
use mockex.FlatHashMap.{clear}
use mockex.FlatHashMap.{lookup, place, store, reinsert, grow, doubled, insert_at_depth}
use mockex.FlatHashMap.{is_loaded}
use mockex.FlatHashMap.Valid.{IsValid, used, locate-ne-stuck, find-slot, slot_of_find}
use mockex.FlatHashMap.Clear.{Vacant, clear-Vacant}
use mockex.FlatHashMap.Place.{place-IsValid, lookup-place, lookup_of_find}
use mockex.FlatHashMap.Place.{lookup_of_no_find, find_of_hit, Probe-cases}

pub used_mono : (keys : ℕ → ℕ) (n n' : ℕ) → n ≤ n' → used keys n ≤ used keys n'
unfolding used
used_mono keys zero zero le = omega arith
used_mono keys (suc n) zero le = absurd (omega arith)
used_mono keys n (suc n') le = elim (ℕ_discrete n (suc n')) [
  | yes same ↦ omega (arith, ap (used keys) same)
  | no less ↦ omega (arith, used_mono keys n n' (omega arith))
]

pub used-suc_full : (keys : ℕ → ℕ) (i : ℕ) → keys i ≢ 0 → used keys (suc i) ≡ used keys i + 1
unfolding used
used-suc_full keys i nz = rw (==_of_ne nz) (omega arith)

ltb_irrefl : (i : ℕ) → ltb i i ≡ false
ltb_irrefl i = ground arith

ltb_zero : (i : ℕ) → ltb i 0 ≡ false
ltb_zero i = ground arith

ltb-suc : (i : ℕ) → ltb i (suc i) ≡ true
ltb-suc i = ground arith

module _ {ℓ} {V : Type ℓ} where
  pub capacity-place :
      (m : FlatHashMap V) (key : ℕ) (v : V) → (place m key v).0.capacity ≡ m.capacity
  unfolding place store
  capacity-place m key v = elim (Probe-cases (locate m key)) [
    | inl (i, h) ↦ rw (place, h)
    | inr (inl (i, h)) ↦ rw (place, h)
    | inr (inr h) ↦ rw (place, h)
  ]

  -- A key that was absent is counted.
  size-place_new :
      {m : FlatHashMap V} (valid : IsValid m) (key : ℕ) (v : V)
      → key ≢ 0
      → find m key ≡ none
      → (place m key v).0.size ≡ m.size + 1
  unfolding place find
  size-place_new {m = m} valid key v nz h = elim (Probe-cases (locate m key)) [
    | inl (i, at) ↦ cc (h, find_of_hit m key i nz at)
    | inr (inl (i, at)) ↦ rw (place, at)
    | inr (inr at) ↦ absurd (locate-ne-stuck valid key at)
  ]

  doubled-Vacant : {m : FlatHashMap V} → IsValid m → Vacant (doubled m)
  unfolding clear
  doubled-Vacant {m = m} valid =
      let double : 2 ^ suc valid.bits ≡ m.capacity * 2 =
        pow-suc 2 valid.bits ∙ ap (λ (t : ℕ). t * 2) (sym valid.power) in
      clear-Vacant (doubled m) (suc valid.bits) (sym double) (ap (λ (t : ℕ). t - 1) (sym double))

  -- What the old table holds below slot i.
  abbrev seen : FlatHashMap V → ℕ → ℕ → Option V
  seen m i q = elim (find m q) [
    | none ↦ none
    | some j ↦ (if ltb j i then some (m.vals j) else none)
  ]

  seen_absent : (m : FlatHashMap V) (i q : ℕ) → find m q ≡ none → seen m i q ≡ none
  seen_absent m i q h = rw (h, seen)

  seen_at :
      (m : FlatHashMap V) (i q j : ℕ)
      → find m q ≡ some j
      → seen m i q ≡ (if ltb j i then some (m.vals j) else none)
  seen_at m i q j h = rw (h, seen)

  find_of_no_lookup : (m : FlatHashMap V) (q : ℕ) → lookup m q ≡ none → find m q ≡ none
  find_of_no_lookup m q h = elim (Option-cases (find m q)) [
    | inl absent ↦ absent
    | inr (j, there) ↦ cc (h, lookup_of_find m q j there)
  ]

  -- The new table while `grow` has put back the entries below slot i.
  record Refilled (m : FlatHashMap V) (i : ℕ) (fresh : FlatHashMap V) : Type ℓ where
    valid : IsValid fresh
    wide : fresh.capacity ≡ m.capacity * 2
    counted : fresh.size ≡ used m.keys i
    reads : (q : ℕ) → lookup fresh q ≡ seen m i q

  module _ {m : FlatHashMap V} (valid : IsValid m) where
    seen_skip : (i q j : ℕ) → find m q ≡ some j → j ≢ i → seen m i q ≡ seen m (suc i) q
    seen_skip i q j there apart =
        let same_test : ltb j i ≡ ltb j (suc i) = ground arith in
        seen_at m i q j there
        ∙ ap (λ (b : Bool). if b then some (m.vals j) else none) same_test
        ∙ sym (seen_at m (suc i) q j there)

    Refilled-few :
        (fresh : FlatHashMap V) (i : ℕ)
        → Refilled m i fresh
        → i < m.capacity
        → fresh.size < m.capacity
    Refilled-few fresh i r lt = omega (
      arith,
      r.counted,
      used_mono m.keys i (2 ^ valid.bits) (omega (arith, valid.power)),
      valid.counted,
      valid.roomy,
      valid.power,
    )

    -- An insert into a table that `grow` fills does not grow it.
    insert_in_grow :
        (fresh : FlatHashMap V) (i key : ℕ) (v : V)
        → Refilled m i fresh
        → i < m.capacity
        → key ≢ 0
        → insert_at_depth 1 fresh key v ≡ place fresh key v
    unfolding insert_at_depth
    insert_in_grow fresh i key v r lt nz =
        let few : fresh.size < m.capacity = Refilled-few fresh i r lt in
        let light : is_loaded fresh ≡ false = ground (arith, r.wide) in
        rw (insert_at_depth, ==_of_ne nz, light)

    reinsert_empty :
        (fresh : FlatHashMap V) (i : ℕ)
        → Refilled m i fresh
        → m.keys i ≡ 0
        → Refilled m (suc i) fresh
    unfolding used
    reinsert_empty fresh i r z = record {
      valid = r.valid;
      wide = r.wide;
      counted = rw (==_of_eq z) (r.counted ∙ omega arith);
      reads = λ q. elim (Option-cases (find m q)) [
        | inl absent ↦ r.reads q ∙ seen_absent m i q absent ∙ sym (seen_absent m (suc i) q absent)
        | inr (j, there) ↦
            let (_, at, nz) = slot_of_find valid q j there in
            let apart : j ≢ i = λ same. nz (sym at ∙ ap m.keys same ∙ z) in
            r.reads q ∙ seen_skip i q j there apart
      ];
    }

    reinsert_full :
        (fresh : FlatHashMap V) (i : ℕ)
        → Refilled m i fresh
        → i < m.capacity
        → m.keys i ≢ 0
        → Refilled m (suc i) (place fresh (m.keys i) (m.vals i)).0
    unfolding used
    reinsert_full fresh i r lt nz =
        let key = m.keys i in
        let v = m.vals i in
        let there : find m key ≡ some i = find-slot valid key i lt refl nz in
        let fresh_key : find fresh key ≡ none =
          find_of_no_lookup fresh key (r.reads key ∙ seen_at m i key i there ∙ rw (ltb_irrefl i)) in
        let few : fresh.size < m.capacity = Refilled-few fresh i r lt in
        let room : fresh.size + 1 < fresh.capacity = omega (arith, r.wide) in
        record {
          valid = place-IsValid r.valid key v nz room;
          wide = capacity-place fresh key v ∙ r.wide;
          counted = omega (
            arith,
            size-place_new r.valid key v nz fresh_key,
            r.counted,
            used-suc_full m.keys i nz,
          );
          reads = λ q. lookup-place r.valid key v nz room q ∙ elim (ℕ_discrete q key) [
            | yes same ↦
                rw (==_of_eq same)
                  (sym (ap (seen m (suc i)) same ∙ seen_at m (suc i) key i there ∙ rw (ltb-suc i)))
            | no other ↦ rw (==_of_ne other) (
                r.reads q ∙ elim (Option-cases (find m q)) [
                  | inl absent ↦ seen_absent m i q absent ∙ sym (seen_absent m (suc i) q absent)
                  | inr (j, at) ↦
                      seen_skip i q j at
                        (λ same. other (sym (slot_of_find valid q j at).1 ∙ ap m.keys same))
                ])
          ];
        }

    reinsert_slot :
        (fresh : FlatHashMap V) (i : ℕ)
        → Refilled m i fresh
        → i < m.capacity
        → Refilled m
            (i + 1)
            (if m.keys i == 0 then fresh else (insert_at_depth 1 fresh (m.keys i) (m.vals i)).0)
    reinsert_slot fresh i r lt = elim (ℕ_discrete (m.keys i) 0) [
      | yes z ↦ rw (add-one, ==_of_eq z) (reinsert_empty fresh i r z)
      | no nz ↦
          rw (add-one, ==_of_ne nz, insert_in_grow fresh i (m.keys i) (m.vals i) r lt nz)
            (reinsert_full fresh i r lt nz)
    ]

    -- The loop over the old slots keeps every entry.
    reinsert-Refilled :
        (n i : ℕ) (fresh : FlatHashMap V)
        → i + n ≡ m.capacity
        → Refilled m i fresh
        → Refilled m m.capacity (reinsert (insert_at_depth 1) m.keys m.vals n i fresh)
    unfolding reinsert
    reinsert-Refilled zero i fresh e r = subst (λ c. Refilled m c fresh) (omega arith) r
    reinsert-Refilled (suc n) i fresh e r =
        reinsert-Refilled n (i + 1) _ (omega arith) (reinsert_slot fresh i r (omega arith))

    doubled-Refilled : Refilled m 0 (doubled m)
    unfolding used
    doubled-Refilled =
        let new = doubled-Vacant valid in
        record {
          valid = new.valid;
          wide = refl;
          counted = refl;
          reads = λ q. new.reads q ∙ elim (Option-cases (find m q)) [
            | inl absent ↦ sym (seen_absent m 0 q absent)
            | inr (j, there) ↦ sym (seen_at m 0 q j there ∙ rw (ltb_zero j))
          ];
        }

    -- On a valid table, `grow`, whose inserts may themselves grow once more, doubles the capacity,
    -- gives a valid table of the same size, and keeps what every key reads.
    pub grow_lem :
        let grown = grow (insert_at_depth 1) m in
        IsValid grown
        × (grown.capacity ≡ m.capacity * 2)
        × (grown.size ≡ m.size)
        × ((q : ℕ) → lookup grown q ≡ lookup m q)
    unfolding grow
    grow_lem =
        let r = reinsert-Refilled m.capacity 0 (doubled m) (omega arith) doubled-Refilled in
        (
          r.valid,
          r.wide,
          omega (arith, r.counted, valid.counted, ap (used m.keys) valid.power),
          λ q. r.reads q ∙ elim (Option-cases (find m q)) [
            | inl absent ↦ seen_absent m m.capacity q absent ∙ sym (lookup_of_no_find m q absent)
            | inr (j, there) ↦
                seen_at m m.capacity q j there
                ∙ rw (lt→ltb j m.capacity (slot_of_find valid q j there).0)
                    (sym (lookup_of_find m q j there))
          ],
        )
