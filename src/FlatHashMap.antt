-- ===== src/FlatHashMap.antt =====
-- src/common/flat_hash_map.hpp: open addressing with linear probing, keys of an unsigned type with
-- 0 as the empty key. The arrays `keys_` and `vals_` are functions from slots; a pointer to a value
-- is its slot. `clear` leaves `vals_` alone, and `resize` fills it with `V{}`, the field `blank`.
-- A `for (;;)` loop takes fuel; `stuck` is the loop that never ends.
-- `size_t` sums stay far below 2 ^ 64, since a slot takes memory; the differences wrap.
pub mod Probing
pub mod Valid
pub mod Place
pub mod Clear
pub mod Erase
pub mod Grow
pub mod Insert
pub mod Entries
pub mod Totals
pub mod Sound
pub mod Refill
pub mod Shift
pub mod Same
use Prim.Native.Nat.{bit_and, bit_xor}
use mockex.Prelude.{ℕ, zero, suc, ◌+◌, ◌-◌, ◌*◌, ◌/◌, ◌%◌, ◌^◌}
use mockex.Prelude.{Bool, true, false, ltb, leb, ◌==◌, if◌then◌else◌, Option, none, some}

pub record FlatHashMap {ℓ} (V : Type ℓ) : Type ℓ where
  pub capacity : ℕ
  pub mask : ℕ
  pub size : ℕ
  pub keys : ℕ → ℕ
  pub vals : ℕ → V
  pub blank : V

-- `a[i] = v`
abbrev pub update {ℓ} : {A : Type ℓ} → (ℕ → A) → ℕ → A → ℕ → A
update a i v j = if j == i then v else a j

-- `static_cast<uint64_t>(key) * 0x9e3779b97f4a7c15ULL`, `h ^= h >> 33`
unfoldable pub mix : ℕ → ℕ
mix key = let h = key * 0x9e37_79b9_7f4a_7c15 % 2 ^ 64 in bit_xor h (h / 2 ^ 33)

-- `hash(key)`: the home slot under a mask
unfoldable pub home : ℕ → ℕ → ℕ
home mask key = bit_and (mix key) mask

-- `++idx; idx &= mask_;`
unfoldable pub next_slot : ℕ → ℕ → ℕ
next_slot mask idx = bit_and (idx + 1) mask

-- Where the probing loop leaves: at the key, at an empty slot, or never.
pub data Probe : Type 0 where
  hit : ℕ → Probe
  free : ℕ → Probe
  stuck : Probe

-- The loop of `find`, `insert` and `erase`.
unfoldable pub probe : (ℕ → ℕ) → ℕ → ℕ → ℕ → ℕ → Probe
probe keys mask zero key idx = stuck
probe keys mask (suc fuel) key idx =
    let rest = probe keys mask fuel key (next_slot mask idx) in
    if keys idx == 0 then free idx else (if keys idx == key then hit idx else rest)

-- The smallest power of two from `cap` on that is not below `desired`: `while (capacity_ <
-- desired) capacity_ <<= 1`.
unfoldable pub round_up : ℕ → ℕ → ℕ → ℕ
round_up zero desired cap = cap
round_up (suc fuel) desired cap =
    let rest = round_up fuel desired (cap * 2) in if ltb cap desired then rest else cap

module _ {ℓ} {V : Type ℓ} where
  -- `explicit FlatHashMap(size_t capacity)`; 64 doublings reach any `size_t`
  unfoldable pub create : V → ℕ → FlatHashMap V
  unfolding round_up
  create blank capacity =
      let cap = round_up 64 (capacity * 10 / 7) 1 in
      record {
        capacity = cap;
        mask = cap - 1;
        size = 0;
        keys = λ _. 0;
        vals = λ _. blank;
        blank = blank;
      }

  abbrev pub locate : FlatHashMap V → ℕ → Probe
  locate m key = probe m.keys m.mask m.capacity key (home m.mask key)

  -- `find`: the slot that the pointer is to, or `none` for `nullptr`
  unfoldable pub find : FlatHashMap V → ℕ → Option ℕ
  find m key = if key == 0 then none else elim (locate m key) [ hit i ↦ some i | _ ↦ none ]

  -- `*p = v` for a pointer into `vals_`
  unfoldable pub store : FlatHashMap V → ℕ → V → FlatHashMap V
  store m i v = record m { vals = update m.vals i v }

  -- what a client reads: `p ? *p : nothing`
  unfoldable pub lookup : FlatHashMap V → ℕ → Option V
  lookup m key = elim (find m key) [ none ↦ none | some i ↦ some (m.vals i) ]

  -- the loop of `insert`, once there is room
  unfoldable pub place : FlatHashMap V → ℕ → V → FlatHashMap V × Bool
  unfolding store
  place m key v = elim (locate m key) [
    | hit i ↦ (store m i v, true)
    | free i ↦
        (record m { keys = update m.keys i key; vals = update m.vals i v; size = m.size + 1 }, true)
    | stuck ↦ (m, false)
  ]

  -- `size_ * 10 >= capacity_ * 7`
  abbrev pub is_loaded : FlatHashMap V → Bool
  is_loaded m = leb (m.capacity * 7) (m.size * 10)

  -- the loop of `grow` over the old arrays: `n` slots left, from slot `i` on
  unfoldable pub reinsert :
      (FlatHashMap V → ℕ → V → FlatHashMap V × Bool)
      → (ℕ → ℕ)
      → (ℕ → V)
      → ℕ
      → ℕ
      → FlatHashMap V
      → FlatHashMap V
  reinsert ins keys vals zero i m = m
  reinsert ins keys vals (suc n) i m =
      reinsert ins keys vals n (i + 1) (if keys i == 0 then m else (ins m (keys i) (vals i)).0)

  -- the doubled table before the old entries go in
  abbrev pub doubled : FlatHashMap V → FlatHashMap V
  doubled m = record m {
    capacity = m.capacity * 2;
    mask = m.capacity * 2 - 1;
    size = 0;
    keys = λ _. 0;
    vals = λ _. m.blank;
  }

  unfoldable pub grow :
      (FlatHashMap V → ℕ → V → FlatHashMap V × Bool) → FlatHashMap V → FlatHashMap V
  unfolding reinsert
  grow ins m = reinsert ins m.keys m.vals m.capacity 0 (doubled m)

  -- `insert` calls `grow`, and `grow` calls `insert`: the first argument bounds the depth.
  unfoldable pub insert_at_depth : ℕ → FlatHashMap V → ℕ → V → FlatHashMap V × Bool
  insert_at_depth zero m key v = (m, false)
  insert_at_depth (suc depth) m key v =
      let grown = grow (insert_at_depth depth) m in
      if key == 0 then (m, false) else place (if is_loaded m then grown else m) key v

  -- The table that `grow` fills is at most half as loaded, so its inserts do not grow it again.
  unfoldable pub insert : FlatHashMap V → ℕ → V → FlatHashMap V × Bool
  unfolding insert_at_depth grow place
  insert m key v = insert_at_depth 2 m key v

  -- `(next - desired + capacity_) & mask_`, on `size_t`
  unfoldable pub distance : FlatHashMap V → ℕ → ℕ
  unfolding home
  distance m next =
      bit_and ((next + 2 ^ 64 - home m.mask (m.keys next) + m.capacity) % 2 ^ 64) m.mask

  -- `keys_[idx] = EmptyKey`
  abbrev pub clear_slot : FlatHashMap V → ℕ → FlatHashMap V
  clear_slot m idx = record m { keys = update m.keys idx 0 }

  -- one round that moves the next entry back
  abbrev pub move_back : FlatHashMap V → ℕ → ℕ → FlatHashMap V
  move_back m idx next = record m {
    keys = update m.keys idx (m.keys next);
    vals = update m.vals idx (m.vals next);
  }

  unfoldable pub backward_shift : ℕ → FlatHashMap V → ℕ → FlatHashMap V
  backward_shift zero m idx = m
  backward_shift (suc fuel) m idx =
      let next = next_slot m.mask idx in
      let rest = backward_shift fuel (move_back m idx next) next in
      if m.keys next == 0
      then clear_slot m idx
      else (if distance m next == 0 then clear_slot m idx else rest)

  -- `--size_` wraps at 0
  unfoldable pub erase : FlatHashMap V → ℕ → FlatHashMap V × Bool
  unfolding backward_shift
  erase m key = if key == 0 then (m, false) else elim (locate m key) [
    | hit i ↦
        (backward_shift m.capacity (record m { size = (m.size + 2 ^ 64 - 1) % 2 ^ 64 }) i, true)
    | _ ↦ (m, false)
  ]

  unfoldable pub clear : FlatHashMap V → FlatHashMap V
  clear m = record m { keys = λ _. 0; size = 0 }

  -- `for_each` with a function that folds over a state: `n` slots left, from slot `i` on
  unfoldable pub for_each_from {κ} : {S : Type κ} → (S → ℕ → V → S) → FlatHashMap V → ℕ → ℕ → S → S
  for_each_from fn m zero i s = s
  for_each_from fn m (suc n) i s =
      for_each_from fn m n (i + 1) (if m.keys i == 0 then s else fn s (m.keys i) (m.vals i))

  unfoldable pub for_each {κ} : {S : Type κ} → (S → ℕ → V → S) → FlatHashMap V → S → S
  unfolding for_each_from
  for_each fn m s = for_each_from fn m m.capacity 0 s
