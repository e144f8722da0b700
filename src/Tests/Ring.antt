-- ===== src/Tests/Ring.antt =====
-- The ring of src/common/ring_buffer.hpp.
use mathlib.Core.Logic.{◌↔◌}
use mockex.Prelude.{
  ℕ, ◌+◌, ◌≡◌, ◌≢◌, ◌<◌, ◌++◌, refl, arith, length, true, false, some, List, [], ◌∷◌,
}
use mockex.RingBuffer.Threads.{
  System, Reach, start, later, Step, load_head, is_free, write_item, store_head, load_tail,
  is_filled,
}
use mockex.RingBuffer.Threads.Safety.{Reach-fifo, Reach-no_race, Reach-full_iff, Reach-empty_iff}
use mockex.RingBuffer.{create, try_push, try_pop, next_index}
use mockex.RingBuffer.Queue.{Call, push, pop, pushed, popped, run, run_queue, run_is_queue}

-- Three fit into four slots.
abbrev calls : List (Call ℕ)
calls = push 5 ∷ push 6 ∷ push 7 ∷ push 8 ∷ pop ∷ push 9 ∷ pop ∷ []

answers : run (create 0 2) calls ≡ (
    pushed true
    ∷ pushed true
    ∷ pushed true
    ∷ pushed false
    ∷ popped (some 5)
    ∷ pushed true
    ∷ popped (some 6)
    ∷ [])
unfolding run create try_push try_pop next_index
answers = refl

run_is_queue_example : run (create 0 2) calls ≡ run_queue 2 [] calls
run_is_queue_example = run_is_queue 0 2 calls

-- The first item is in; the producer is about to write the second and the consumer to read the first.
abbrev one_in : (s : System ℕ) × Reach 0 2 s
unfolding next_index
one_in = (
  _,
  later
      (later
        (later (later start (Step.push (load_head 5)))
          (Step.push (is_free 0 (omega arith) (omega arith) (omega arith))))
        (Step.push write_item))
      (Step.push store_head),
)

abbrev both_loaded : (s : System ℕ) × Reach 0 2 s
unfolding next_index
both_loaded = (_, later (later one_in.1 (Step.pop load_tail)) (Step.push (load_head 6)))

abbrev both_inside : (s : System ℕ) × Reach 0 2 s
unfolding next_index
both_inside = (
  _,
  later (later both_loaded.1 (Step.pop (is_filled 1 (omega arith) (omega arith) (omega arith))))
      (Step.push (is_free 0 (omega arith) (omega arith) (omega arith))),
)

Reach-fifo_example :
    (waiting : List ℕ) × (both_inside.0.sent ≡ both_inside.0.got ++ waiting) × (length waiting < 4)
Reach-fifo_example = Reach-fifo both_inside.1

Reach-no_race_example : ◌≢◌ {A = ℕ} 1 0
unfolding next_index
Reach-no_race_example =
    Reach-no_race {item = 6} {head = 1} {next = 2} {tail = 0} both_inside.1 refl refl

Reach-full_iff_example : (2 ≡ both_loaded.0.tail.value 0) ↔ (length both_loaded.0.sent + 1 ≡ 0 + 4)
unfolding next_index
Reach-full_iff_example =
    Reach-full_iff {item = 6} {head = 1} {next = 2} 0 both_loaded.1 refl (omega arith) (omega arith)

Reach-empty_iff_example : (0 ≡ both_loaded.0.head.value 1) ↔ (length both_loaded.0.got ≡ 1)
unfolding next_index
Reach-empty_iff_example =
    Reach-empty_iff {tail = 0} 1 both_loaded.1 refl (omega arith) (omega arith)
