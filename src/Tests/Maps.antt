-- ===== src/Tests/Maps.antt =====
-- The hash map of src/common/flat_hash_map.hpp on eight slots. The keys 1 and 3 hash to slot 1, and
-- the key 6 to slot 2.
use mockex.Prelude.{ℕ, ◌≡◌, ◌≢◌, refl, none, some, arith}
use mockex.FlatHashMap.{
  FlatHashMap, create, insert, find, lookup, erase, locate, stuck, store, home, mix,
}
use mockex.FlatHashMap.{next_slot, distance, probe}
use mockex.FlatHashMap.Valid.{IsValid, locate-ne-stuck}
use mockex.FlatHashMap.Clear.{create-Vacant}
use mockex.FlatHashMap.Insert.{Inserted, insert-Inserted}
use mockex.FlatHashMap.Erase.{find-erase_stranded}
use mockex.FlatHashMap.Sound.{Sound, times_absent, vacant-Sound}
use mockex.FlatHashMap.Refill.{insert-Added}
use mockex.FlatHashMap.Shift.{Erased, erase-Erased}

program : Unit {0}
unfolding create insert find lookup erase store home mix next_slot distance probe
program = tt

abbrev empty : FlatHashMap ℕ
empty = create 0 6

abbrev one : FlatHashMap ℕ
one = (insert empty 1 10).0

abbrev two : FlatHashMap ℕ
two = (insert one 6 60).0

abbrev three : FlatHashMap ℕ
three = (insert two 3 30).0

-- A table asked for three entries has four slots, and grows at its fourth key.
abbrev small : FlatHashMap ℕ
small = (insert (insert (insert (create 0 3) 1 10).0 6 60).0 3 30).0

grown_reads :
    ((insert small 9 90).0.capacity ≡ 8)
    × (lookup (insert small 9 90).0 3 ≡ some 30)
    × (lookup (insert small 9 90).0 9 ≡ some 90)
unfolding program
grown_reads = (refl, refl, refl)

three_slots : (find three 1 ≡ some 1) × (find three 6 ≡ some 2) × (find three 3 ≡ some 3)
unfolding program
three_slots = (refl, refl, refl)

-- A table of two slots fills up, and the search of a third key never ends.
full_never_ends : locate {V = ℕ} (insert (insert (create 0 2) 1 10).0 2 20).0 5 ≡ stuck
unfolding program
full_never_ends = refl

empty-IsValid : IsValid empty
empty-IsValid = (create-Vacant 0 6).valid

inserts :
    Inserted empty 1 10 (insert empty 1 10)
    × Inserted one 6 60 (insert one 6 60)
    × Inserted two 3 30 (insert two 3 30)
unfolding create
inserts =
    let first = insert-Inserted empty-IsValid 1 10 (omega arith) (omega arith) in
    let second = insert-Inserted first.valid 6 60 (omega arith) (omega (arith, first.wide)) in
    (
      first,
      second,
      insert-Inserted second.valid 3 30 (omega arith) (omega (arith, first.wide, second.wide)),
    )

locate-ne-stuck_example : locate three 5 ≢ stuck
locate-ne-stuck_example = locate-ne-stuck inserts.2.valid 5

insert-Inserted_example : Inserted empty 1 10 (insert empty 1 10)
unfolding create
insert-Inserted_example = insert-Inserted empty-IsValid 1 10 (omega arith) (omega arith)

-- Erasing the key 1 loses the key 3.
find-erase_stranded_example : find (erase three 1).0 3 ≡ none
unfolding program
find-erase_stranded_example =
    find-erase_stranded three 1 3 1 3 inserts.2.valid refl refl (omega arith) refl (omega arith)
      refl

abbrev nothing : FlatHashMap ℕ
nothing = create 0 6

sound : Sound three
unfolding program
sound =
    let none_in : Sound nothing = vacant-Sound nothing 3 refl refl refl (λ i. refl) in
    let first =
      insert-Added none_in 1 10 (omega arith) (times_absent nothing 1 (λ i. ground arith))
        (omega arith) in
    let second =
      insert-Added first.ok 6 60 (omega arith) (times_absent one 6 (λ i. ground arith))
        (omega arith) in
    (insert-Added second.ok 3 30 (omega arith) (times_absent two 3 (λ i. ground arith))
      (omega arith)).ok

-- The erase that loses the key 3 keeps its entry.
erase-Erased_example : Erased three 1 10 (erase three 1).0
unfolding program
erase-Erased_example = erase-Erased sound 1 1 (omega arith) refl
