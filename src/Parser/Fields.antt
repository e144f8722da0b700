-- ===== src/Parser/Fields.antt =====
-- The fields of a payload that src/feed/parser.cpp reads, written back one before the other.
use mockex.Prelude.{ℕ, zero, suc, ◌+◌, ◌*◌, ◌/◌, ◌%◌, ◌^◌, ◌≤◌, ◌<◌, ◌≡◌, refl, ap, ◌∙◌}
use mockex.Prelude.{arith, List, [], ◌∷◌, ◌++◌, All, length, drop, get_or, drop-add}
use mockex.Prelude.{length-drop}
use native.Mathlib.Nat.{pow-suc}
use mockex.Parser.{read_le, to_side}
use mockex.Parser.{read_u32, read_u64}
use mockex.Parser.RoundTrip.{le, side_byte}

abbrev pub AreBytes : List ℕ → Type 0
AreBytes bytes = All (λ b. b < 256) bytes

drop-AreBytes : (n : ℕ) (bytes : List ℕ) → AreBytes bytes → AreBytes (drop n bytes)
drop-AreBytes zero bytes h = h
drop-AreBytes (suc n) [] h = tt
drop-AreBytes (suc n) (b ∷ bytes) h = drop-AreBytes n bytes h.1

-- What is read, written again.
le-read_le :
    (n : ℕ) (bytes : List ℕ)
    → AreBytes bytes
    → n ≤ length bytes
    → le n (read_le n bytes) ++ drop n bytes ≡ bytes
unfolding le read_le
le-read_le zero bytes h l = refl
le-read_le (suc n) [] h l = absurd (omega arith)
le-read_le (suc n) (b ∷ bytes) h l =
    let low : (b + 256 * read_le n bytes) % 256 ≡ b = omega (arith, h.0) in
    let high : (b + 256 * read_le n bytes) / 256 ≡ read_le n bytes = omega (arith, h.0) in
    rw (low, high) (ap (λ xs. b ∷ xs) (le-read_le n bytes h.1 (omega arith)))

read_le-lt : (n : ℕ) (bytes : List ℕ) → AreBytes bytes → read_le n bytes < 256 ^ n
unfolding read_le
read_le-lt zero bytes h = omega arith
read_le-lt (suc n) [] h = omega (arith, pow-suc 256 n, read_le-lt n [] tt)
read_le-lt (suc n) (b ∷ bytes) h = omega (arith, pow-suc 256 n, read_le-lt n bytes h.1)

pub side_byte-to_side : (b : ℕ) → side_byte (to_side b) ≡ b
unfolding to_side
side_byte-to_side b = ground arith

pub drop-get_or :
    (n : ℕ) (bytes : List ℕ)
    → n < length bytes
    → get_or bytes n 0 ∷ drop (suc n) bytes ≡ drop n bytes
drop-get_or zero [] h = absurd (omega arith)
drop-get_or zero (b ∷ bytes) h = refl
drop-get_or (suc n) [] h = absurd (omega arith)
drop-get_or (suc n) (b ∷ bytes) h = drop-get_or n bytes (omega arith)

module _ (bytes : List ℕ) (ok : AreBytes bytes) where
  -- A field at an offset, and what is behind it.
  pub field_at :
      (offset n : ℕ)
      → offset + n ≤ length bytes
      → le n (read_le n (drop offset bytes)) ++ drop (offset + n) bytes ≡ drop offset bytes
  field_at offset n h = rw (drop-add offset n bytes) (
      le-read_le n (drop offset bytes) (drop-AreBytes offset bytes ok)
        (omega (arith, length-drop offset bytes)))

  pub fits_at : (offset n : ℕ) → read_le n (drop offset bytes) < 256 ^ n
  fits_at offset n = read_le-lt n (drop offset bytes) (drop-AreBytes offset bytes ok)

  -- The fields are written one before the other.
  pub chain :
      (offset n : ℕ) (rest : List ℕ)
      → offset + n ≤ length bytes
      → rest ≡ drop (offset + n) bytes
      → le n (read_le n (drop offset bytes)) ++ rest ≡ drop offset bytes
  chain offset n rest h e =
      ap (λ xs. le n (read_le n (drop offset bytes)) ++ xs) e ∙ field_at offset n h

  -- The fields that begin all messages but a clear.
  pub begin :
      (rest : List ℕ)
      → 28 ≤ length bytes
      → rest ≡ drop 28 bytes
      → le 8 (read_u64 bytes 0)
          ++ (le 8 (read_u64 bytes 8)
              ++ (le 8 (read_u64 bytes 16) ++ (le 4 (read_u32 bytes 24) ++ rest)))
        ≡ bytes
  begin rest h e =
      chain 0 8 _ (omega arith)
        (chain 8 8 _ (omega arith) (chain 16 8 _ (omega arith) (chain 24 4 rest (omega arith) e)))
