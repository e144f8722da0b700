-- ===== src/RingBuffer.antt =====
-- src/common/ring_buffer.hpp: the ring of one producer and one consumer, whose calls do not overlap
-- here: each method is one step, and its loads and stores are those of one thread.
pub mod Queue
pub mod Threads
use Prim.Native.Nat.{bit_and}
use mockex.Prelude.{
  ℕ, ◌+◌, ◌-◌, ◌%◌, ◌^◌, Bool, true, false, ◌==◌, if◌then◌else◌, Option, none, some,
}
use mockex.FlatHashMap.{update}

-- `mask_`, the two indices and the array.
pub record SpscRingBuffer {ℓ} (T : Type ℓ) : Type ℓ where
  pub mask : ℕ
  pub head : ℕ
  pub tail : ℕ
  pub buf : ℕ → T

-- `(i + 1) & mask_`
unfoldable pub next_index : ℕ → ℕ → ℕ
next_index mask i = bit_and (i + 1) mask

module _ {ℓ} {T : Type ℓ} where
  -- The constructor, for a capacity of 2 ^ `bits`.
  unfoldable pub create : T → ℕ → SpscRingBuffer T
  create blank bits = record { mask = 2 ^ bits - 1; head = 0; tail = 0; buf = λ _. blank }

  unfoldable pub try_push : SpscRingBuffer T → T → SpscRingBuffer T × Bool
  try_push r item =
      let next = next_index r.mask r.head in
      if next == r.tail
      then (r, false)
      else (record r { buf = update r.buf r.head item; head = next }, true)

  -- The item goes to `out` where there is one.
  unfoldable pub try_pop : SpscRingBuffer T → SpscRingBuffer T × Option T
  try_pop r =
      if r.tail == r.head
      then (r, none)
      else (record r { tail = next_index r.mask r.tail }, some (r.buf r.tail))

  unfoldable pub empty : SpscRingBuffer T → Bool
  empty r = r.head == r.tail

  -- `(h - t) & mask_`, where the subtraction wraps
  unfoldable pub size : SpscRingBuffer T → ℕ
  size r = bit_and ((r.head + 2 ^ 64 - r.tail) % 2 ^ 64) r.mask
