-- ===== src/RingBuffer/Threads/Safety.antt =====
-- What the two threads of src/common/ring_buffer.hpp can rely on, however they interleave.
use native.Mathlib.Nat.{add-mod_right}
use mathlib.Core.Logic.{◌↔◌}
use mockex.Prelude.{ℕ, suc, ◌+◌, ◌-◌, ◌^◌, ◌%◌, ◌≤◌, ◌<◌, ◌≡◌, ◌≢◌, arith, sym, ap, ◌∙◌}
use mockex.Prelude.{List, ◌++◌, length, length-append, subst}
use mockex.RingBuffer.Threads.{loaded_head, has_room, loaded_tail, has_item}
use mockex.RingBuffer.Threads.{System, Reach}
use mockex.RingBuffer.Threads.Slots.{same_slot, slots, length-slots}
use mockex.RingBuffer.Threads.Invariant.{Inv, Reach-Inv, PushKnows, PopKnows}

module _ {T : Type 0} where
  sent_count : {cap : ℕ} {s : System T} → Inv cap s → length s.sent ≡ s.head.stores
  sent_count {cap} {s} inv =
      let d = s.head.stores - s.tail.stores in
      omega (
        arith,
        ap length inv.in_order,
        length-append s.got (slots s.buf cap d s.tail.stores),
        length-slots s.buf cap d s.tail.stores,
        inv.got_all,
        inv.not_ahead,
        inv.head_seen,
      )

  -- However the two threads interleave, and however old the indices are that they read: the items of
  -- the pushes that have returned true are, in their order, the items that the pops have returned and
  -- then those that are still in the ring, of which there are fewer than it has slots.
  pub Reach-fifo :
      {blank : T} {bits : ℕ} {s : System T}
      → Reach blank bits s
      → (waiting : List T) × (s.sent ≡ s.got ++ waiting) × (length waiting < 2 ^ bits)
  Reach-fifo {bits} {s} r =
      let inv = Reach-Inv r in
      let d = s.head.stores - s.tail.stores in
      (
        slots s.buf (2 ^ bits) d s.tail.stores,
        inv.in_order,
        omega (
          arith,
          length-slots s.buf (2 ^ bits) d s.tail.stores,
          inv.room,
          inv.tail_seen,
          inv.not_ahead,
          inv.head_seen,
        ),
      )

  -- A producer that is about to write a slot and a consumer that is about to read one never stand at
  -- the same slot.
  pub Reach-no_race :
      {blank : T} {bits : ℕ} {s : System T} {item : T} {head next tail : ℕ}
      → Reach blank bits s
      → s.producer ≡ has_room item head next
      → s.consumer ≡ has_item tail
      → head ≢ tail
  Reach-no_race {bits} {s} r at_write at_read same =
      let inv = Reach-Inv r in
      let p = subst (PushKnows (2 ^ bits) s.head.stores s.seen_tail s.buf) at_write inv.pushing in
      let c = subst (PopKnows (2 ^ bits) s.tail.stores s.seen_head s.buf) at_read inv.popping in
      let apart =
        same_slot (2 ^ bits) s.tail.stores s.head.stores
          (omega (arith, inv.not_ahead, inv.head_seen)) (omega (arith, inv.room, inv.tail_seen))
          (sym c.0 ∙ sym same ∙ p.0) in
      omega (arith, c.1, apart, inv.head_seen)

  -- A push that reads some store of the tail finds the ring full exactly if the pops up to that store
  -- leave one slot less than the ring has to the items sent.
  pub Reach-full_iff :
      {blank : T} {bits : ℕ} {s : System T} {item : T} {head next : ℕ} (i : ℕ)
      → Reach blank bits s
      → s.producer ≡ loaded_head item head next
      → s.seen_tail ≤ i
      → i ≤ s.tail.stores
      → (next ≡ s.tail.value i) ↔ (length s.sent + 1 ≡ i + 2 ^ bits)
  Reach-full_iff {bits} {s} i r at lo hi =
      let inv = Reach-Inv r in
      let n = sent_count inv in
      let p = subst (PushKnows (2 ^ bits) s.head.stores s.seen_tail s.buf) at inv.pushing in
      (
        λ e.
            let slot = sym p.1 ∙ e ∙ inv.tails i hi ∙ sym (add-mod_right i (2 ^ bits)) in
            omega (
              arith,
              n,
              same_slot (2 ^ bits) (suc s.head.stores) (i + 2 ^ bits) (omega (arith, inv.room))
                  (omega (arith, inv.not_ahead, inv.head_seen)) slot,
            ),
        λ full.
            p.1
            ∙ ap (λ (x : ℕ). x % 2 ^ bits) (omega (arith, n, full))
            ∙ add-mod_right i (2 ^ bits)
            ∙ sym (inv.tails i hi),
      )

  -- A pop that reads some store of the head finds the ring empty exactly if it has taken the items of
  -- all stores up to that one.
  pub Reach-empty_iff :
      {blank : T} {bits : ℕ} {s : System T} {tail : ℕ} (i : ℕ)
      → Reach blank bits s
      → s.consumer ≡ loaded_tail tail
      → s.seen_head ≤ i
      → i ≤ s.head.stores
      → (tail ≡ s.head.value i) ↔ (length s.got ≡ i)
  Reach-empty_iff {bits} {s} i r at lo hi =
      let inv = Reach-Inv r in
      let c = subst (PopKnows (2 ^ bits) s.tail.stores s.seen_head s.buf) at inv.popping in
      (
        λ e.
            inv.got_all
            ∙ same_slot (2 ^ bits) s.tail.stores i (omega (arith, inv.not_ahead))
                (omega (arith, inv.room, inv.tail_seen)) (sym c ∙ e ∙ inv.heads i hi),
        λ all. c ∙ ap (λ (x : ℕ). x % 2 ^ bits) (sym inv.got_all ∙ all) ∙ sym (inv.heads i hi),
      )
