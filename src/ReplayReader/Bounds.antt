-- ===== src/ReplayReader/Bounds.antt =====
-- `next` of src/feed/replay_reader.cpp reads inside the file and moves on.
use mockex.Prelude.{ℕ, ◌+◌, ◌≤◌, ◌<◌, ◌≡◌, refl, none, some, length, arith, List, [], ◌∷◌, drop}
use mockex.Prelude.{
  length-drop, length-take, leb, ltb, zero, suc, Option, Bool-cases, inl, inr, sym, ap, ◌∙◌, All,
}
use mockex.Types.{wire_header_size}
use mockex.Parser.{read_le}
use mockex.ReplayReader.{ReplayReader, RawMsg, next, account}
use mockex.ReplayReader.{read_all}

-- The position is inside the file that is mapped.
pub record IsValid (r : ReplayReader) : Type 0 where
  pub whole : r.size ≡ length r.bytes
  pub inside : r.pos ≤ r.size

-- What a call returns: nothing and no change, or a message that lies whole inside the file, behind
-- which the position then is.
pub data Outcome (r : ReplayReader) : ReplayReader × Option RawMsg → Type 0 where
  ended : Outcome r (r, none)
  moved :
      (r' : ReplayReader) (m : RawMsg)
      → r'.pos ≡ r.pos + wire_header_size + m.len
      → r'.pos ≤ r'.size
      → length m.payload ≡ m.len
      → r'.bytes ≡ r.bytes
      → r'.size ≡ r.size
      → Outcome r (r', some m)

pub next-Outcome : (r : ReplayReader) → IsValid r → Outcome r (next r)
unfolding next account
next-Outcome r v =
    let len = read_le 2 (drop 1 (drop r.pos r.bytes)) in
    let fits = length-take len (drop (r.pos + wire_header_size) r.bytes) in
    let rest = length-drop (r.pos + wire_header_size) r.bytes in
    elim (Bool-cases (leb (r.pos + wire_header_size) r.size)) [
      | inr short ↦ rw short ended
      | inl header ↦ elim (Bool-cases (ltb r.size (r.pos + (wire_header_size + len)))) [
        | inl cut ↦ rw (header, cut) ended
        | inr whole ↦
            rw (header, whole)
              (moved _ _ (omega arith) (ground (arith, whole))
                (ground (arith, whole, fits, rest, v.whole)) refl refl)
      ]
    ]

pub moved-IsValid :
    (r r' : ReplayReader)
    → IsValid r
    → r'.bytes ≡ r.bytes
    → r'.size ≡ r.size
    → r'.pos ≤ r'.size
    → IsValid r'
moved-IsValid r r' v same size le = record {
  whole = size ∙ v.whole ∙ sym (ap length same);
  inside = le;
}

-- The bytes that some messages take, with their headers.
pub wire_length : List RawMsg → ℕ
wire_length [] = 0
wire_length (m ∷ ms) = wire_header_size + length m.payload + wire_length ms

-- What a read to the end leaves: nothing more to read, inside the file, behind all messages.
pub record Finished (r : ReplayReader) (result : ReplayReader × List RawMsg) : Type 0 where
  pub done : (next result.0).1 ≡ none
  pub valid : IsValid result.0
  pub read : result.0.pos ≡ r.pos + wire_length result.1
  pub whole : All (λ m. length m.payload ≡ m.len) result.1

-- From a position inside a mapped file, as many rounds as there are bytes left, and one, read to the
-- end: then the reader has no message, every message that it gave had a payload of the length that
-- its header says, and the position is behind all of them and inside the file.
pub read_all-Finished :
    (fuel : ℕ) (r : ReplayReader) → IsValid r → r.size < r.pos + fuel → Finished r (read_all fuel r)
unfolding read_all wire_length
read_all-Finished zero r v h = absurd (omega (arith, v.inside))
read_all-Finished (suc fuel) r v h =
    go (next r) refl (next-Outcome r v) (λ r'. read_all-Finished fuel r')
  where
    go :
        (o : ReplayReader × Option RawMsg)
        → next r ≡ o
        → Outcome r o
        → ((r' : ReplayReader)
            → IsValid r'
            → r'.size < r'.pos + fuel
            → Finished r' (read_all fuel r'))
        → Finished r (read_all (suc fuel) r)
    go o e ended ih =
        rw (e, read_all)
          (record { done = ap (λ p. p.1) e; valid = v; read = omega arith; whole = tt })
    go o e (moved r' m at le full same size) ih =
        let rest = ih r' (moved-IsValid r r' v same size le) (omega arith) in
        rw (e, read_all)
          (record {
            done = rest.done;
            valid = rest.valid;
            read = omega (arith, rest.read);
            whole = (full, rest.whole);
          })
