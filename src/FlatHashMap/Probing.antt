-- ===== src/FlatHashMap/Probing.antt =====
-- The probing loop of src/common/flat_hash_map.hpp over the array of keys alone.
use native.Mathlib.Nat.{one-le-pow, mod-lt, mod-add-mod, mod-eq_of_lt, add-zero}
use mockex.Prelude.{ℕ, zero, suc, ◌+◌, ◌-◌, ◌%◌, ◌^◌, ◌<◌, ◌≡◌, ap, ◌≢◌, ◌∙◌, sym}
use mockex.Prelude.{arith}
use mockex.Prelude.Bits.{bit_and_mask}
use mockex.FlatHashMap.{hit, free, stuck, probe, next_slot, home, update}

-- A probe that reports a hit stands at the key.
pub key_of_hit :
    (keys : ℕ → ℕ) (mask fuel key idx : ℕ) {j : ℕ}
    → probe keys mask fuel key idx ≡ hit j
    → (keys j ≡ key) × (keys j ≢ 0)
unfolding probe
key_of_hit keys mask zero key idx h = cc
key_of_hit keys mask (suc fuel) key idx {j} h =
    ground (arith, key_of_hit keys mask fuel key (next_slot mask idx) {j = j})

-- A probe that reports a free slot stands at an empty one.
pub empty_of_free :
    (keys : ℕ → ℕ) (mask fuel key idx : ℕ) {j : ℕ}
    → probe keys mask fuel key idx ≡ free j
    → keys j ≡ 0
unfolding probe
empty_of_free keys mask zero key idx h = cc
empty_of_free keys mask (suc fuel) key idx {j} h =
    ground (arith, empty_of_free keys mask fuel key (next_slot mask idx) {j = j})

-- Filling an empty slot leaves the probe of a key that is found.
pub probe-update_hit :
    (keys : ℕ → ℕ) (mask fuel key idx e new_key : ℕ) {j : ℕ}
    → keys e ≡ 0
    → probe keys mask fuel key idx ≡ hit j
    → probe (update keys e new_key) mask fuel key idx ≡ hit j
unfolding probe
probe-update_hit keys mask zero key idx e new_key z h = cc
probe-update_hit keys mask (suc fuel) key idx e new_key {j} z h =
    ground (arith, probe-update_hit keys mask fuel key (next_slot mask idx) e new_key {j = j})

-- A key that is written to the slot where its probe ended is found there.
pub probe-update_free :
    (keys : ℕ → ℕ) (mask fuel key idx : ℕ) {e : ℕ}
    → key ≢ 0
    → probe keys mask fuel key idx ≡ free e
    → probe (update keys e key) mask fuel key idx ≡ hit e
unfolding probe
probe-update_free keys mask zero key idx nz h = cc
probe-update_free keys mask (suc fuel) key idx {e} nz h = ground (
  arith,
  probe-update_free keys mask fuel key (next_slot mask idx) {e = e},
  empty_of_free keys mask fuel key (next_slot mask idx) {j = e},
)

module _ (k : ℕ) where
  pub next_slot_mod : (idx : ℕ) → next_slot (2 ^ k - 1) idx ≡ (idx + 1) % 2 ^ k
  unfolding next_slot
  next_slot_mod idx = bit_and_mask k (idx + 1)

  pub next_slot-lt : (idx : ℕ) → next_slot (2 ^ k - 1) idx < 2 ^ k
  next_slot-lt idx = rw next_slot_mod (mod-lt (idx + 1) (one-le-pow k 2 (omega arith)))

  pub home-lt : (key : ℕ) → home (2 ^ k - 1) key < 2 ^ k
  unfolding home
  home-lt key = rw (bit_and_mask k) (mod-lt _ (one-le-pow k 2 (omega arith)))

  -- A probe that starts inside the table ends inside it.
  pub hit-lt :
      (keys : ℕ → ℕ) (fuel key idx : ℕ) {j : ℕ}
      → idx < 2 ^ k
      → probe keys (2 ^ k - 1) fuel key idx ≡ hit j
      → j < 2 ^ k
  unfolding probe
  hit-lt keys zero key idx lt h = cc
  hit-lt keys (suc fuel) key idx {j} lt h =
      ground (arith, next_slot-lt idx, hit-lt keys fuel key (next_slot (2 ^ k - 1) idx) {j = j})

  pub free-lt :
      (keys : ℕ → ℕ) (fuel key idx : ℕ) {j : ℕ}
      → idx < 2 ^ k
      → probe keys (2 ^ k - 1) fuel key idx ≡ free j
      → j < 2 ^ k
  unfolding probe
  free-lt keys zero key idx lt h = cc
  free-lt keys (suc fuel) key idx {j} lt h =
      ground (arith, next_slot-lt idx, free-lt keys fuel key (next_slot (2 ^ k - 1) idx) {j = j})

  -- An empty slot d steps ahead ends the loop within d + 1 rounds.
  pub probe-ends :
      (keys : ℕ → ℕ) (fuel key idx d e : ℕ)
      → idx < 2 ^ k
      → keys e ≡ 0
      → (idx + d) % 2 ^ k ≡ e
      → d < fuel
      → probe keys (2 ^ k - 1) fuel key idx ≢ stuck
  unfolding probe
  probe-ends keys zero key idx d e lt z at h = absurd (omega arith)
  probe-ends keys (suc fuel) key idx zero e lt z at h =
      let here : idx ≡ e =
        sym (mod-eq_of_lt lt) ∙ ap (λ (t : ℕ). t % 2 ^ k) (sym (add-zero idx)) ∙ at in
      ground (arith, ap keys here)
  probe-ends keys (suc fuel) key idx (suc d) e lt z at h =
      let later : (next_slot (2 ^ k - 1) idx + d) % 2 ^ k ≡ e =
        rw (next_slot_mod, mod-add-mod)
          (ap (λ (t : ℕ). t % 2 ^ k) (let s : idx + 1 + d ≡ idx + suc d = omega arith in s) ∙ at) in
      ground (
        arith,
        probe-ends keys fuel key (next_slot (2 ^ k - 1) idx) d e (next_slot-lt idx) z later
            (omega arith),
      )
