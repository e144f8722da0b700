-- ===== src/RingBuffer/Threads/Invariant.antt =====
-- What every step of the two threads of src/common/ring_buffer.hpp keeps.
use native.Mathlib.Nat.{mod-eq_of_lt, one-le-pow, add-mod_right}
use mathlib.Core.List.{append_assoc}
use mockex.Prelude.{ℕ, suc, ◌+◌, ◌-◌, ◌%◌, ◌^◌, ◌≤◌, ◌<◌, ◌≡◌, ◌≢◌, refl}
use mockex.Prelude.{arith, sym, ap, ◌∙◌, [], ◌∷◌, ◌++◌, length, length-append}
use mockex.FlatHashMap.{update}
use mockex.RingBuffer.{next_index}
use mockex.RingBuffer.Threads.Slots.{slots, slots-update, slots-suc, same_slot, next_index_mod}
use mockex.RingBuffer.Threads.{Atomic, Producer, loaded_head, has_room, wrote_item}
use mockex.RingBuffer.Threads.{Consumer, loaded_tail, has_item, took_item, System}
use mockex.RingBuffer.Threads.{Push, load_head, is_full, is_free, write_item, store_head}
use mockex.RingBuffer.Threads.{Pop, load_tail, is_empty, is_filled, read_item, store_tail}
use mockex.RingBuffer.Threads.{Step, push, pop, Reach, start, later}

stored :
    (cap : ℕ) (a : Atomic) (v : ℕ)
    → ((i : ℕ) → i ≤ a.stores → a.value i ≡ i % cap)
    → v ≡ suc a.stores % cap
    → (i : ℕ) → i ≤ suc a.stores
    → update a.value (suc a.stores) v i ≡ i % cap
stored cap a v old new i h = ground (arith, old i)

module _ {T : Type 0} where
  -- The local variables of the producer, given the counts of stores and the pops that it has seen.
  abbrev pub PushKnows : ℕ → ℕ → ℕ → (ℕ → T) → Producer T → Type 0
  PushKnows cap n seen buf Producer.outside = Unit
  PushKnows cap n seen buf (loaded_head item head next) = (head ≡ n % cap) × (next ≡ suc n % cap)
  PushKnows cap n seen buf (has_room item head next) =
      (head ≡ n % cap) × (next ≡ suc n % cap) × (suc n < seen + cap)
  PushKnows cap n seen buf (wrote_item item head next) =
      (head ≡ n % cap) × (next ≡ suc n % cap) × (suc n < seen + cap) × (buf (n % cap) ≡ item)

  abbrev pub PopKnows : ℕ → ℕ → ℕ → (ℕ → T) → Consumer T → Type 0
  PopKnows cap m seen buf Consumer.outside = Unit
  PopKnows cap m seen buf (loaded_tail tail) = tail ≡ m % cap
  PopKnows cap m seen buf (has_item tail) = (tail ≡ m % cap) × (m < seen)
  PopKnows cap m seen buf (took_item out tail) =
      (tail ≡ m % cap) × (m < seen) × (out ≡ buf (m % cap))

  pub record Inv (cap : ℕ) (s : System T) : Type 0 where
    pub heads : (i : ℕ) → i ≤ s.head.stores → s.head.value i ≡ i % cap
    pub tails : (i : ℕ) → i ≤ s.tail.stores → s.tail.value i ≡ i % cap
    pub tail_seen : s.seen_tail ≤ s.tail.stores
    pub not_ahead : s.tail.stores ≤ s.seen_head
    pub head_seen : s.seen_head ≤ s.head.stores
    pub room : s.head.stores < s.seen_tail + cap
    pub got_all : length s.got ≡ s.tail.stores
    pub in_order : s.sent ≡ s.got ++ slots s.buf cap (s.head.stores - s.tail.stores) s.tail.stores
    pub pushing : PushKnows cap s.head.stores s.seen_tail s.buf s.producer
    pub popping : PopKnows cap s.tail.stores s.seen_head s.buf s.consumer

  -- A write behind the items keeps what the consumer knows.
  PopKnows-update :
      (cap m n seen : ℕ) (buf : ℕ → T) (x : T) (c : Consumer T)
      → seen ≤ n
      → n < m + cap
      → PopKnows cap m seen buf c
      → PopKnows cap m seen (update buf (n % cap) x) c
  PopKnows-update cap m n seen buf x Consumer.outside l h k = k
  PopKnows-update cap m n seen buf x (loaded_tail tail) l h k = k
  PopKnows-update cap m n seen buf x (has_item tail) l h k = k
  PopKnows-update cap m n seen buf x (took_item out tail) l h (a, b, c) =
      let other : m % cap ≢ n % cap = λ e. omega (arith, same_slot cap m n (omega arith) h e) in
      (a, b, ground (arith, other, c))

  -- More pops seen keep what the producer knows, and more pushes seen what the consumer knows.
  PushKnows-seen :
      (cap n seen seen' : ℕ) (buf : ℕ → T) (p : Producer T)
      → seen ≤ seen'
      → PushKnows cap n seen buf p
      → PushKnows cap n seen' buf p
  PushKnows-seen cap n seen seen' buf Producer.outside h k = k
  PushKnows-seen cap n seen seen' buf (loaded_head item head next) h k = k
  PushKnows-seen cap n seen seen' buf (has_room item head next) h (a, b, c) = (a, b, omega arith)
  PushKnows-seen cap n seen seen' buf (wrote_item item head next) h (a, b, c, d) =
      (a, b, omega arith, d)

  Push-Inv :
      {mask cap : ℕ} {s t : System T} {p : Producer T}
      → Push mask s p t
      → ((i : ℕ) → next_index mask (i % cap) ≡ suc i % cap)
      → PushKnows cap s.head.stores s.seen_tail s.buf p
      → Inv cap s
      → Inv cap t
  Push-Inv {mask} {cap} {s} (load_head item) wraps k inv =
      let here = inv.heads s.head.stores (omega arith) in
      record {
        heads = inv.heads;
        tails = inv.tails;
        tail_seen = inv.tail_seen;
        not_ahead = inv.not_ahead;
        head_seen = inv.head_seen;
        room = inv.room;
        got_all = inv.got_all;
        in_order = inv.in_order;
        pushing = (here, ap (next_index mask) here ∙ wraps s.head.stores);
        popping = inv.popping;
      }
  Push-Inv {mask} {cap} {s} (is_full i lo hi e) wraps k inv = record {
    heads = inv.heads;
    tails = inv.tails;
    tail_seen = hi;
    not_ahead = inv.not_ahead;
    head_seen = inv.head_seen;
    room = omega (arith, inv.room);
    got_all = inv.got_all;
    in_order = inv.in_order;
    pushing = tt;
    popping = inv.popping;
  }
  Push-Inv {mask} {cap} {s} (is_free i lo hi ne) wraps k inv =
      let apart : suc s.head.stores ≢ i + cap =
        λ e. ne (k.1 ∙ ap (λ (x : ℕ). x % cap) e ∙ add-mod_right i cap ∙ sym (inv.tails i hi)) in
      record {
        heads = inv.heads;
        tails = inv.tails;
        tail_seen = hi;
        not_ahead = inv.not_ahead;
        head_seen = inv.head_seen;
        room = omega (arith, inv.room);
        got_all = inv.got_all;
        in_order = inv.in_order;
        pushing = (k.0, k.1, omega (arith, inv.room, apart));
        popping = inv.popping;
      }
  Push-Inv {mask} {cap} {s} (write_item {item} {head} {next}) wraps (at, next_at, free) inv =
      let fits : s.head.stores < s.tail.stores + cap = omega (arith, inv.room, inv.tail_seen) in
      let n = s.head.stores in
      let m = s.tail.stores in
      rw at (record {
        heads = inv.heads;
        tails = inv.tails;
        tail_seen = inv.tail_seen;
        not_ahead = inv.not_ahead;
        head_seen = inv.head_seen;
        room = inv.room;
        got_all = inv.got_all;
        in_order =
            inv.in_order
            ∙ ap (λ ys. s.got ++ ys)
                (sym (
                  slots-update s.buf cap (n - m) m n item
                    (omega (arith, inv.not_ahead, inv.head_seen)) fits));
        pushing = (refl, next_at, free, ground arith);
        popping =
            PopKnows-update cap m n s.seen_head s.buf item s.consumer inv.head_seen fits
              inv.popping;
      })
  Push-Inv {mask} {cap} {s} (store_head {item} {head} {next}) wraps (at, next_at, free, wrote) inv =
      let n = s.head.stores in
      let m = s.tail.stores in
      let one_more : suc n - m ≡ suc (n - m) = omega (arith, inv.not_ahead, inv.head_seen) in
      record {
        heads = stored cap s.head next inv.heads next_at;
        tails = inv.tails;
        tail_seen = inv.tail_seen;
        not_ahead = inv.not_ahead;
        head_seen = omega (arith, inv.head_seen);
        room = free;
        got_all = inv.got_all;
        in_order =
            ap (λ ys. ys ++ (item ∷ [])) inv.in_order
            ∙ append_assoc s.got (slots s.buf cap (n - m) m) (item ∷ [])
            ∙ ap (λ ys. s.got ++ ys)
                (ap (λ y. slots s.buf cap (n - m) m ++ (y ∷ [])) (sym wrote)
                  ∙ sym (
                      slots-suc s.buf cap (n - m) m n (omega (arith, inv.not_ahead, inv.head_seen)))
                  ∙ ap (λ (d : ℕ). slots s.buf cap d m) (sym one_more));
        pushing = tt;
        popping = inv.popping;
      }

  Pop-Inv :
      {mask cap : ℕ} {s t : System T} {p : Consumer T}
      → Pop mask s p t
      → ((i : ℕ) → next_index mask (i % cap) ≡ suc i % cap)
      → PopKnows cap s.tail.stores s.seen_head s.buf p
      → Inv cap s
      → Inv cap t
  Pop-Inv {mask} {cap} {s} load_tail wraps k inv = record {
    heads = inv.heads;
    tails = inv.tails;
    tail_seen = inv.tail_seen;
    not_ahead = inv.not_ahead;
    head_seen = inv.head_seen;
    room = inv.room;
    got_all = inv.got_all;
    in_order = inv.in_order;
    pushing = inv.pushing;
    popping = inv.tails s.tail.stores (omega arith);
  }
  Pop-Inv {mask} {cap} {s} (is_empty i lo hi e) wraps k inv = record {
    heads = inv.heads;
    tails = inv.tails;
    tail_seen = inv.tail_seen;
    not_ahead = omega (arith, inv.not_ahead);
    head_seen = hi;
    room = inv.room;
    got_all = inv.got_all;
    in_order = inv.in_order;
    pushing = inv.pushing;
    popping = tt;
  }
  Pop-Inv {mask} {cap} {s} (is_filled {tail} i lo hi ne) wraps k inv =
      let apart : i ≢ s.tail.stores =
        λ e. ne (k ∙ ap (λ (x : ℕ). x % cap) (sym e) ∙ sym (inv.heads i hi)) in
      record {
        heads = inv.heads;
        tails = inv.tails;
        tail_seen = inv.tail_seen;
        not_ahead = omega (arith, inv.not_ahead);
        head_seen = hi;
        room = inv.room;
        got_all = inv.got_all;
        in_order = inv.in_order;
        pushing = inv.pushing;
        popping = (k, omega (arith, inv.not_ahead, apart));
      }
  Pop-Inv {mask} {cap} {s} (read_item {tail}) wraps (at, filled) inv = record {
    heads = inv.heads;
    tails = inv.tails;
    tail_seen = inv.tail_seen;
    not_ahead = inv.not_ahead;
    head_seen = inv.head_seen;
    room = inv.room;
    got_all = inv.got_all;
    in_order = inv.in_order;
    pushing = inv.pushing;
    popping = (at, filled, ap s.buf at);
  }
  Pop-Inv {mask} {cap} {s} (store_tail {out} {tail}) wraps (at, filled, took) inv =
      let n = s.head.stores in
      let m = s.tail.stores in
      let one_less : n - m ≡ suc (n - suc m) = omega (arith, inv.head_seen) in
      let rest = slots s.buf cap (n - suc m) (suc m) in
      let oldest : slots s.buf cap (suc (n - suc m)) m ≡ out ∷ rest =
        unfold slots in ap (λ y. y ∷ rest) (sym took) in
      record {
        heads = inv.heads;
        tails = stored cap s.tail _ inv.tails (ap (next_index mask) at ∙ wraps m);
        tail_seen = omega (arith, inv.tail_seen);
        not_ahead = filled;
        head_seen = inv.head_seen;
        room = inv.room;
        got_all = omega (arith, inv.got_all, length-append s.got (out ∷ []));
        in_order =
            inv.in_order
            ∙ ap (λ ys. s.got ++ ys) (ap (λ (d : ℕ). slots s.buf cap d m) one_less ∙ oldest)
            ∙ sym (append_assoc s.got (out ∷ []) rest);
        pushing = inv.pushing;
        popping = tt;
      }

  Step-Inv :
      {mask cap : ℕ} {s t : System T}
      → Step mask s t
      → ((i : ℕ) → next_index mask (i % cap) ≡ suc i % cap)
      → Inv cap s
      → Inv cap t
  Step-Inv (push p) wraps inv = Push-Inv p wraps inv.pushing inv
  Step-Inv (pop p) wraps inv = Pop-Inv p wraps inv.popping inv

  pub Reach-Inv : {blank : T} {bits : ℕ} {s : System T} → Reach blank bits s → Inv (2 ^ bits) s
  unfolding slots
  Reach-Inv {bits} start =
      let some_slot = one-le-pow bits 2 (omega arith) in
      record {
        heads = λ i h. ground (arith, mod-eq_of_lt {n = 0} some_slot);
        tails = λ i h. ground (arith, mod-eq_of_lt {n = 0} some_slot);
        tail_seen = omega arith;
        not_ahead = omega arith;
        head_seen = omega arith;
        room = omega (arith, some_slot);
        got_all = refl;
        in_order = refl;
        pushing = tt;
        popping = tt;
      }
  Reach-Inv {bits} (later r st) = Step-Inv st (next_index_mod bits) (Reach-Inv r)
