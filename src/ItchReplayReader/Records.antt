-- ===== src/ItchReplayReader/Records.antt =====
-- An ITCH feed, written as records and read back by src/feed/itch_replay_reader.cpp.
use mockex.Prelude.{ℕ, zero, suc, ◌+◌, ◌/◌, ◌%◌, ◌^◌, ◌<◌, ◌≤◌, ◌≡◌, refl, ap}
use mockex.Prelude.{arith, List, [], ◌∷◌, ◌++◌, All, length, drop, take, get_or, ltb}
use mockex.Prelude.{length-append, length-drop, drop-add, drop-append, take-append, false}
use mockex.Prelude.{none, some, Option, ltb_of_le}
use mockex.ItchParser.{read_be16}
use mockex.ReplayReader.{mapped}
use mockex.ItchReplayReader.{ItchReplayReader, ItchRawMsg, next, open_file, create, read_all}
use mockex.ItchReplayReader.{collect}

-- A length and a payload, before the rest of a file.
unfoldable pub item : ItchRawMsg → List ℕ → List ℕ
item m rest = m.len / 256 ∷ m.len % 256 ∷ (m.payload ++ rest)

unfoldable pub items : List ItchRawMsg → List ℕ → List ℕ
unfolding item
items [] tail = tail
items (m ∷ ms) tail = item m (items ms tail)

-- A message that a record can hold.
pub record IsItem (m : ItchRawMsg) : Type 0 where
  pub typed : get_or m.payload 0 0 ≡ m.msg_type
  pub sized : m.len ≡ length m.payload
  pub some_bytes : 0 < m.len
  pub fits : m.len < 2 ^ 16

-- Where a file goes on with no whole record, and where it goes on with an empty one.
pub data End (tail : List ℕ) : ℕ → Type 0 where
  short : length tail < 2 → End tail 0
  cut : length tail < 2 + read_be16 tail 0 → End tail 0
  empty : 2 ≤ length tail → read_be16 tail 0 ≡ 0 → End tail 1

record IsValid (r : ItchReplayReader) : Type 0 where
  whole : r.size ≡ length r.bytes
  inside : r.pos ≤ r.size

-- The reader behind a message.
abbrev after : ItchReplayReader → ItchRawMsg → ItchReplayReader
after r m = record r { pos = r.pos + (2 + m.len); msg_count = (r.msg_count + 1) % 2 ^ 64 }

next-item :
    (r : ItchReplayReader) (m : ItchRawMsg) (rest : List ℕ)
    → IsValid r
    → IsItem m
    → drop r.pos r.bytes ≡ item m rest
    → (next r ≡ (after r m, some m))
      × IsValid (after r m)
      × (drop (after r m).pos (after r m).bytes ≡ rest)
unfolding next item
next-item r m rest v f h =
    let len : read_be16 (drop r.pos r.bytes) 0 ≡ m.len = rw h (omega arith) in
    let body : take m.len (drop (r.pos + 2) r.bytes) ≡ m.payload =
      rw (drop-add, h, f.sized) (take-append m.payload rest) in
    let room : r.pos + (2 + m.len) ≤ r.size = omega (
      arith,
      ap length h,
      length-drop r.pos r.bytes,
      length-append m.payload rest,
      f.sized,
      v.whole,
      v.inside,
    ) in
    let behind : drop (r.pos + (2 + m.len)) r.bytes ≡ rest =
      rw (drop-add r.pos, h, drop-add 2, f.sized) (drop-append m.payload rest) in
    let header : ltb r.size (r.pos + 2) ≡ false = ltb_of_le (omega arith) in
    let whole : ltb r.size (r.pos + 2 + m.len) ≡ false = ltb_of_le (omega arith) in
    let full : ltb m.len 1 ≡ false = ltb_of_le (omega (arith, f.some_bytes)) in
    (
      rw (next, len, header, whole, full, body, f.typed) refl,
      record { whole = v.whole; inside = room },
      behind,
    )

next_at_end :
    (r : ItchReplayReader) {n : ℕ}
    → IsValid r
    → r.msg_count < 2 ^ 64
    → End (drop r.pos r.bytes) n
    → ((next r).1 ≡ none) × ((next r).0.msg_count ≡ (r.msg_count + n) % 2 ^ 64)
unfolding next
next_at_end r v c (short few) = ground (arith, few, length-drop r.pos r.bytes, v.whole, v.inside)
next_at_end r v c (cut few) = ground (arith, few, length-drop r.pos r.bytes, v.whole, v.inside)
next_at_end r v c (empty two z) = ground (arith, z, length-drop r.pos r.bytes, v.whole, v.inside)

record ReadBack (r : ItchReplayReader) (ms : List ItchRawMsg) (n : ℕ)
    (result : ItchReplayReader × List ItchRawMsg) : Type 0 where
  messages : result.1 ≡ ms
  counted : result.0.msg_count ≡ (r.msg_count + length ms + n) % 2 ^ 64

collect-none :
    (rest : ItchReplayReader → ItchReplayReader × List ItchRawMsg)
    (o : ItchReplayReader × Option ItchRawMsg)
    → o.1 ≡ none
    → ((collect rest o).1 ≡ []) × ((collect rest o).0 ≡ o.0)
collect-none rest (r, none) h = (refl, refl)
collect-none rest (r, some m) h = cc

read_all-ReadBack :
    (fuel : ℕ) (r : ItchReplayReader) (ms : List ItchRawMsg) (tail : List ℕ) {n : ℕ}
    → IsValid r
    → r.msg_count < 2 ^ 64
    → All IsItem ms
    → End tail n
    → drop r.pos r.bytes ≡ items ms tail
    → length ms < fuel
    → ReadBack r ms n (read_all fuel r)
unfolding read_all items
read_all-ReadBack zero r ms tail v c a end h f = absurd (omega arith)
read_all-ReadBack (suc fuel) r [] tail {n} v c a end h f =
    let (nothing, count) = next_at_end r {n = n} v c (rw h end) in
    let (nil, stays) = collect-none (read_all fuel) (next r) nothing in
    record { messages = nil; counted = omega (arith, ap (λ x. x.msg_count) stays, count) }
read_all-ReadBack (suc fuel) r (m ∷ ms) tail v c a end h f =
    let (step, valid, behind) = next-item r m (items ms tail) v a.0 h in
    let rest =
      read_all-ReadBack fuel (after r m) ms tail valid (omega arith) a.1 end behind (omega arith) in
    rw (step, read_all)
      (record { messages = ap (λ xs. m ∷ xs) rest.messages; counted = omega (arith, rest.counted) })

length-items : (ms : List ItchRawMsg) (tail : List ℕ) → length ms ≤ length (items ms tail)
unfolding items
length-items [] tail = omega arith
length-items (m ∷ ms) tail =
    omega (arith, length-items ms tail, length-append m.payload (items ms tail))

-- A file of records with nonempty payloads, each of its length that 16 bits hold and with the type in
-- its first byte, read until there is no more, gives the messages in their order and no more, whether
-- the file then ends in less than a record or goes on with an empty record and anything behind it;
-- the count, modulo 2 ^ 64, is the number of the messages, and one more for an empty record.
pub read_all-items :
    (ms : List ItchRawMsg) (tail : List ℕ) {n : ℕ}
    → All IsItem ms
    → End tail n
    → let file = items ms tail in
      let (last, read) = read_all (length file + 1) (open_file create (mapped file)).0 in
      (read ≡ ms) × (last.msg_count ≡ (length ms + n) % 2 ^ 64)
unfolding open_file
read_all-items ms tail {n} a end =
    let file = items ms tail in
    let back =
      read_all-ReadBack (length file + 1) (open_file create (mapped file)).0 ms tail {n = n}
        (record { whole = refl; inside = omega arith }) (omega arith) a end refl
        (omega (arith, length-items ms tail)) in
    (back.messages, omega (arith, back.counted))
