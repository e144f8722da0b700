-- ===== src/ReplayReader/Frames.antt =====
-- A native feed, written as frames and read back by src/feed/replay_reader.cpp.
use mockex.Prelude.{
  ℕ, zero, suc, ◌+◌, ◌-◌, ◌%◌, ◌^◌, ◌<◌, ◌≤◌, ◌≡◌, ◌⊎◌, inl, inr, refl, ap, sym, ◌∙◌,
}
use mockex.Prelude.{arith, List, [], ◌∷◌, ◌++◌, All, length, drop, take, get_or, ltb, leb, ◌==◌}
use mockex.Prelude.{
  length-append, length-drop, drop-add, drop-append, take-append, if◌then◌else◌, true, false,
}
use mockex.Prelude.{none, some, ltb_of_le, le→leb, lt→ltb, Bool-cases}
use mockex.Types.{MsgType, add_order, modify_order, cancel_order, trade, clear, unknown, add64}
use mockex.Parser.{read_le}
use mockex.Parser.RoundTrip.{le, read_le-le}
use mockex.ReplayReader.{ReplayReader, RawMsg, next, seq_of, account, open_file, mapped, create}
use mockex.ReplayReader.{read_all, to_msg_type}
use mockex.ReplayReader.Bounds.{IsValid}

-- The byte of a message type.
abbrev pub type_byte : MsgType → ℕ
type_byte add_order = 0
type_byte modify_order = 1
type_byte cancel_order = 2
type_byte trade = 3
type_byte clear = 4
type_byte (unknown n) = n

-- A header and a payload, before the rest of a file.
unfoldable pub frame : RawMsg → List ℕ → List ℕ
unfolding le
frame m rest = type_byte m.type ∷ le 2 (length m.payload) ++ (m.payload ++ rest)

unfoldable pub frames : List RawMsg → List ℕ → List ℕ
unfolding frame
frames [] tail = tail
frames (m ∷ ms) tail = frame m (frames ms tail)

-- A message that a frame can hold.
pub record IsFramed (m : RawMsg) : Type 0 where
  pub typed : to_msg_type (type_byte m.type) ≡ m.type
  pub sized : m.len ≡ length m.payload
  pub fits : m.len < 2 ^ 16

-- The end of a file that is no whole frame.
abbrev pub IsCut : List ℕ → Type 0
IsCut tail = (length tail < 3) ⊎ (length tail < 3 + read_le 2 (drop 1 tail))

-- How many sequence numbers do not follow the one before.
pub gaps_after : ℕ → List RawMsg → ℕ
gaps_after prev [] = 0
gaps_after prev (m ∷ ms) =
    let seq = seq_of m.payload m.len in (if seq == add64 prev 1 then 0 else 1) + gaps_after seq ms

pub gaps : List RawMsg → ℕ
gaps [] = 0
gaps (m ∷ ms) = gaps_after (seq_of m.payload m.len) ms

-- The reader behind a message.
abbrev after : ReplayReader → RawMsg → ReplayReader
after r m = record (account r (seq_of m.payload m.len)) { pos = r.pos + (3 + m.len) }

next-frame :
    (r : ReplayReader) (m : RawMsg) (rest : List ℕ)
    → IsValid r
    → IsFramed m
    → drop r.pos r.bytes ≡ frame m rest
    → next r ≡ (after r m, some m)
unfolding next frame account seq_of
next-frame r m rest v f h =
    let n = length m.payload in
    let len : read_le 2 (drop 1 (drop r.pos r.bytes)) ≡ m.len =
      rw h (read_le-le 2 n (m.payload ++ rest) (omega (arith, f.fits, f.sized)) ∙ sym f.sized) in
    let body : take m.len (drop (r.pos + 3) r.bytes) ≡ m.payload =
      rw (drop-add, h, f.sized) (take-append m.payload rest) in
    let room : r.pos + (3 + m.len) ≤ r.size = omega (
      arith,
      ap length h,
      length-drop r.pos r.bytes,
      length-append m.payload rest,
      f.sized,
      v.whole,
      v.inside,
    ) in
    let tag : to_msg_type (get_or (drop r.pos r.bytes) 0 0) ≡ m.type = rw h f.typed in
    let header : leb (r.pos + 3) r.size ≡ true = le→leb _ _ (omega arith) in
    let whole : ltb r.size (r.pos + (3 + m.len)) ≡ false = ltb_of_le room in
    rw (next, len, header, whole, body, tag) refl

next-cut : (r : ReplayReader) → IsValid r → IsCut (drop r.pos r.bytes) → next r ≡ (r, none)
unfolding next
next-cut r v (inl short) =
    let header : leb (r.pos + 3) r.size ≡ false =
      ground (arith, short, length-drop r.pos r.bytes, v.whole, v.inside) in
    rw (header, next) refl
next-cut r v (inr short) = elim (Bool-cases (leb (r.pos + 3) r.size)) [
  | inr none_left ↦ rw (none_left, next) refl
  | inl header ↦
      let cut : ltb r.size (r.pos + (3 + read_le 2 (drop 1 (drop r.pos r.bytes)))) ≡ true =
        lt→ltb _ _ (omega (arith, short, length-drop r.pos r.bytes, v.whole, v.inside)) in
      rw (header, cut, next) refl
]

after-IsValid :
    (r : ReplayReader) (m : RawMsg) (rest : List ℕ)
    → IsValid r
    → IsFramed m
    → drop r.pos r.bytes ≡ frame m rest
    → IsValid (after r m) × (drop (after r m).pos (after r m).bytes ≡ rest)
unfolding frame account
after-IsValid r m rest v f h =
    let sizes = ap length h in
    let left : length (drop r.pos r.bytes) ≡ length r.bytes - r.pos = length-drop r.pos r.bytes in
    let behind : drop (r.pos + (3 + m.len)) r.bytes ≡ rest =
      rw (drop-add r.pos, h, drop-add 3, f.sized) (drop-append m.payload rest) in
    (
      record {
        whole = v.whole;
        inside =
            omega (arith, sizes, left, length-append m.payload rest, f.sized, v.whole, v.inside);
      },
      behind,
    )

-- The gaps that a reader is going to count.
abbrev gaps_ahead : ReplayReader → List RawMsg → ℕ
gaps_ahead r ms = if r.has_prev_seq then gaps_after r.last_seq_no ms else gaps ms

-- What a read to the end gives.
record ReadBack (r : ReplayReader) (ms : List RawMsg) (result : ReplayReader × List RawMsg)
    : Type 0 where
  messages : result.1 ≡ ms
  counted : result.0.msg_count ≡ (r.msg_count + length ms) % 2 ^ 64
  gapped : result.0.gap_count ≡ (r.gap_count + gaps_ahead r ms) % 2 ^ 64

account_gaps :
    (r : ReplayReader) (m : RawMsg) (ms : List RawMsg)
    → (r.gap_count + gaps_ahead r (m ∷ ms)) % 2 ^ 64
      ≡ ((after r m).gap_count + gaps_ahead (after r m) ms) % 2 ^ 64
unfolding account gaps gaps_after
account_gaps r m ms = ground arith

account_counts :
    (r : ReplayReader) (seq : ℕ)
    → r.gap_count < 2 ^ 64
    → ((account r seq).msg_count ≡ (r.msg_count + 1) % 2 ^ 64)
      × ((account r seq).gap_count < 2 ^ 64)
unfolding account
account_counts r seq h = (refl, ground arith)

no_gaps_ahead : (r : ReplayReader) → gaps_ahead r [] ≡ 0
unfolding gaps gaps_after
no_gaps_ahead r = ground arith

read_all-ReadBack :
    (fuel : ℕ) (r : ReplayReader) (ms : List RawMsg) (tail : List ℕ)
    → IsValid r
    → (r.msg_count < 2 ^ 64) × (r.gap_count < 2 ^ 64)
    → All IsFramed ms
    → IsCut tail
    → drop r.pos r.bytes ≡ frames ms tail
    → length ms < fuel
    → ReadBack r ms (read_all fuel r)
unfolding read_all frames
read_all-ReadBack zero r ms tail v c a cut h f = absurd (omega arith)
read_all-ReadBack (suc fuel) r [] tail v c a cut h f =
    rw (next-cut r v (rw h cut), read_all)
      (record { messages = refl; counted = omega arith; gapped = omega (arith, no_gaps_ahead r) })
read_all-ReadBack (suc fuel) r (m ∷ ms) tail v c a cut h f =
    let (valid, behind) = after-IsValid r m (frames ms tail) v a.0 h in
    let counts = account_counts r (seq_of m.payload m.len) c.1 in
    let rest =
      read_all-ReadBack fuel (after r m) ms tail valid (omega (arith, counts)) a.1 cut behind
        (omega arith) in
    rw (next-frame r m (frames ms tail) v a.0 h, read_all)
      (record {
        messages = ap (λ xs. m ∷ xs) rest.messages;
        counted = omega (arith, rest.counted, counts);
        gapped = rest.gapped ∙ sym (account_gaps r m ms);
      })

length-frames : (ms : List RawMsg) (tail : List ℕ) → length ms ≤ length (frames ms tail)
unfolding frames
length-frames [] tail = omega arith
length-frames (m ∷ ms) tail =
    omega (arith, length-frames ms tail, length-append m.payload (frames ms tail))

-- A file of whole messages, each with a payload of its length that 16 bits hold and with a type that
-- its byte stands for, and with an end that is no whole frame, read until there is no more, gives the
-- messages in their order, counts them, and counts as gaps the sequence numbers that do not follow
-- the one before, both modulo 2 ^ 64.
pub read_all-frames :
    (ms : List RawMsg) (tail : List ℕ)
    → All IsFramed ms
    → IsCut tail
    → let file = frames ms tail in
      let (last, read) = read_all (length file + 1) (open_file create (mapped file)).0 in
      (read ≡ ms) × (last.msg_count ≡ length ms % 2 ^ 64) × (last.gap_count ≡ gaps ms % 2 ^ 64)
unfolding open_file
read_all-frames ms tail a cut =
    let file = frames ms tail in
    let back =
      read_all-ReadBack (length file + 1) (open_file create (mapped file)).0 ms tail
        (record { whole = refl; inside = omega arith }) (omega arith) a cut refl
        (omega (arith, length-frames ms tail)) in
    (back.messages, omega (arith, back.counted), omega (arith, back.gapped))
