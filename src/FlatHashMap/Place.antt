-- ===== src/FlatHashMap/Place.antt =====
-- `insert` of src/common/flat_hash_map.hpp on a table with room: the invariant and the lookups.
use native.Mathlib.Decide.{ℕ_discrete}
use mockex.Prelude.{ℕ, ◌+◌, ◌-◌, ◌^◌, ◌<◌, ◌≡◌, refl, ap, ◌≢◌, ◌∙◌, sym}
use mockex.Prelude.{◌==◌, if◌then◌else◌, arith, ◌⊎◌, inl, inr, none, some, Option-cases, true}
use mockex.Prelude.{==_of_eq, ==_of_ne}
use mockex.FlatHashMap.{FlatHashMap, Probe, hit, free, stuck, probe, home, update, locate, find}
use mockex.FlatHashMap.{lookup, place, store}
use mockex.FlatHashMap.Probing.{probe-update_hit, probe-update_free}
use mockex.FlatHashMap.Valid.{IsValid, used-update, locate-ne-stuck, find-slot, slot_of_hit}
use mockex.FlatHashMap.Valid.{slot_of_free, slot_of_find, absent_of_find}

-- A write to a value: the keys stay, so the table stays valid.
pub store-IsValid {ℓ} :
    {V : Type ℓ} {m : FlatHashMap V} → IsValid m → (i : ℕ) (v : V) → IsValid (store m i v)
unfolding store
store-IsValid valid i v = record {
  bits = valid.bits;
  power = valid.power;
  masked = valid.masked;
  counted = valid.counted;
  roomy = valid.roomy;
  reached = valid.reached;
}

pub Probe-cases : (p : Probe) → ((i : ℕ) × (p ≡ hit i)) ⊎ ((i : ℕ) × (p ≡ free i)) ⊎ (p ≡ stuck)
Probe-cases (hit i) = inl (i, refl)
Probe-cases (free i) = inr (inl (i, refl))
Probe-cases stuck = inr (inr refl)

module _ {ℓ} {A : Type ℓ} where
  pub update_self : (a : ℕ → A) (i : ℕ) (x : A) → update a i x i ≡ x
  update_self a i x = ground arith

  pub update_other : (a : ℕ → A) {i j : ℕ} (x : A) → j ≢ i → update a i x j ≡ a j
  update_other a x ne = ground arith

find-store {ℓ} :
    {V : Type ℓ} (m : FlatHashMap V) (i : ℕ) (v : V) (q : ℕ) → find (store m i v) q ≡ find m q
unfolding find store
find-store m i v q = refl

module _ {ℓ} {V : Type ℓ} (m : FlatHashMap V) (key : ℕ) where
  pub find_of_hit : (e : ℕ) → key ≢ 0 → locate m key ≡ hit e → find m key ≡ some e
  unfolding find
  find_of_hit e nz h = rw (find, ==_of_ne nz, h)

  pub lookup_of_find : (i : ℕ) → find m key ≡ some i → lookup m key ≡ some (m.vals i)
  unfolding lookup
  lookup_of_find i h = rw (h, lookup)

  pub lookup_of_no_find : find m key ≡ none → lookup m key ≡ none
  unfolding lookup
  lookup_of_no_find h = rw (h, lookup)

abbrev pub filled {ℓ} : {V : Type ℓ} → FlatHashMap V → ℕ → ℕ → V → FlatHashMap V
filled m e key v = record m {
  keys = update m.keys e key;
  vals = update m.vals e v;
  size = m.size + 1;
}

module _ {ℓ} {V : Type ℓ} {m : FlatHashMap V} (valid : IsValid m) (key : ℕ) (v : V) where
  -- Filling the free slot where the probe of the key ended keeps every stored key in reach.
  filled-IsValid :
      (e : ℕ)
      → locate m key ≡ free e
      → key ≢ 0
      → m.size + 1 < m.capacity
      → IsValid (filled m e key v)
  filled-IsValid e h nz room =
      let cap = 2 ^ valid.bits in
      let (lt, z) = slot_of_free valid key e h in
      let there : probe m.keys (cap - 1) cap key (home (cap - 1) key) ≡ free e =
        rw (valid.power, valid.masked) at h in
      let new : probe (update m.keys e key) (cap - 1) cap key (home (cap - 1) key) ≡ hit e =
        probe-update_free m.keys (cap - 1) cap key _ nz there in
      record {
        bits = valid.bits;
        power = valid.power;
        masked = valid.masked;
        counted =
            omega (
              arith,
              valid.counted,
              used-update m.keys cap e key (omega (arith, valid.power)) z nz,
            );
        roomy = omega (arith, valid.power);
        reached = λ i. elim (ℕ_discrete i e) [
          | yes same ↦ λ lt' full. rw (same, update_self m.keys e key) new
          | no other ↦ λ lt' full. rw (update_other m.keys key other) (
              probe-update_hit m.keys (cap - 1) cap (m.keys i) _ e key z
                (valid.reached i lt' (rw (update_other m.keys key other) at full)))
        ];
      }

  module _ (e q : ℕ) (nz : key ≢ 0) where
    abbrev written : FlatHashMap V
    written = filled m e key v

    find-filled_old :
        (i : ℕ)
        → m.keys e ≡ 0
        → IsValid written
        → find m q ≡ some i
        → (find written q ≡ some i) × (written.vals i ≡ m.vals i)
    find-filled_old i z valid' h =
        let (lt, at, nz') = slot_of_find valid q i h in
        let apart : i ≢ e = λ same. nz' (sym at ∙ ap m.keys same ∙ z) in
        (
          find-slot valid' q i lt (update_other m.keys key apart ∙ at) nz',
          update_other m.vals v apart,
        )

    find-filled_new :
        m.keys e ≡ 0 → IsValid written → find m q ≡ none → q ≢ key → find written q ≡ none
    find-filled_new z valid' h other = elim (Option-cases (find written q)) [
      | inl absent ↦ absent
      | inr (j, there) ↦
          let (lt, at, nz') = slot_of_find valid' q j there in
          let apart : j ≢ e =
            λ same. other (sym at ∙ ap written.keys same ∙ update_self m.keys e key) in
          absurd (absent_of_find valid q j h lt nz' (sym (update_other m.keys key apart) ∙ at))
    ]

    -- A lookup in the filled table sees the new value under its key, and the old ones elsewhere.
    lookup-filled :
        locate m key ≡ free e
        → IsValid written
        → lookup written q ≡ (if q == key then some v else lookup m q)
    unfolding lookup
    lookup-filled h valid' =
        let (lt, z) = slot_of_free valid key e h in
        elim (ℕ_discrete q key) [
          | yes same ↦ ground (
            arith,
            find-slot valid' key e lt (update_self m.keys e key) nz,
            ap (find written) same,
          )
          | no other ↦ elim (Option-cases (find m q)) [
            | inl absent ↦ ground (arith, find-filled_new z valid' absent other)
            | inr (i, there) ↦ ground (arith, find-filled_old i z valid' there)
          ]
        ]

    -- A lookup after a write through a found slot.
    lookup-stored :
        locate m key ≡ hit e → lookup (store m e v) q ≡ (if q == key then some v else lookup m q)
    lookup-stored h = elim (Option-cases (find m q)) [
      | inl absent ↦
          let other : q ≢ key = λ same. cc (absent, ap (find m) same, find_of_hit m key e nz h) in
          rw (
            lookup_of_no_find (store m e v) q (find-store m e v q ∙ absent),
            lookup_of_no_find m q absent,
            ==_of_ne other,
          )
      | inr (i, there) ↦
          let (_, at, _) = slot_of_find valid q i there in
          let (_, at_e) = slot_of_hit valid key e h in
          elim (ℕ_discrete q key) [
            | yes same ↦
                let one : i ≡ e = cc (there, ap (find m) same, find_of_hit m key e nz h) in
                let self : (store m e v).vals i ≡ v =
                  ap (store m e v).vals one ∙ unfold store in update_self m.vals e v in
                rw (
                  lookup_of_find (store m e v) q i (find-store m e v q ∙ there),
                  self,
                  ==_of_eq same,
                )
            | no other ↦
                let apart : i ≢ e = λ one. other (sym at ∙ ap m.keys one ∙ at_e) in
                let kept : (store m e v).vals i ≡ m.vals i =
                  unfold store in update_other m.vals v apart in
                rw (
                  lookup_of_find (store m e v) q i (find-store m e v q ∙ there),
                  lookup_of_find m q i there,
                  kept,
                  ==_of_ne other,
                )
          ]
    ]

  -- `insert` without growth keeps the table valid, reports success, and sets one key.
  module _ (nz : key ≢ 0) (room : m.size + 1 < m.capacity) where
    pub place-IsValid : IsValid (place m key v).0
    unfolding place
    place-IsValid = elim (Probe-cases (locate m key)) [
      | inl (i, h) ↦ rw (h, place) (store-IsValid valid i v)
      | inr (inl (e, h)) ↦ rw (h, place) (filled-IsValid e h nz room)
      | inr (inr h) ↦ absurd (locate-ne-stuck valid key h)
    ]

    pub place-done : (place m key v).1 ≡ true
    unfolding place
    place-done = elim (Probe-cases (locate m key)) [
      | inl (i, h) ↦ rw (h, place)
      | inr (inl (e, h)) ↦ rw (h, place)
      | inr (inr h) ↦ absurd (locate-ne-stuck valid key h)
    ]

    pub lookup-place :
        (q : ℕ) → lookup (place m key v).0 q ≡ (if q == key then some v else lookup m q)
    unfolding place
    lookup-place q = elim (Probe-cases (locate m key)) [
      | inl (i, h) ↦ rw (h, place) (lookup-stored i q nz h)
      | inr (inl (e, h)) ↦ rw (h, place) (lookup-filled e q nz h (filled-IsValid e h nz room))
      | inr (inr h) ↦ absurd (locate-ne-stuck valid key h)
    ]
