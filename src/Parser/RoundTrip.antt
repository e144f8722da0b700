-- ===== src/Parser/RoundTrip.antt =====
-- The wire format of src/feed/parser.cpp, written and read back.
use mockex.Prelude.{ℕ, zero, suc, ◌/◌, ◌%◌, ◌^◌, ◌<◌, ◌≡◌, ◌≢◌, refl, arith, List, [], ◌∷◌}
use mockex.Prelude.{◌++◌, length, ltb_of_le, ltb, ==_of_ne}
use native.Mathlib.Nat.{pow-suc}
use mockex.Prelude.{false}
use mockex.Types.{
  MsgType, add_order, modify_order, cancel_order, trade, clear, unknown, Side, bid, ask,
}
use mockex.Types.{other}
use mockex.Parser.{ParsedMsg, parsed_add, parsed_modify, parsed_cancel, parsed_trade, parsed_clear}
use mockex.Parser.{parse_modify, parse_cancel, parse_trade, parse_clear, check_trade, check_modify}
use mockex.Parser.{parse_error, parse, parse_add, check_add, read_le, to_side, is_invalid_side}

-- A number as so many bytes, the lowest first.
unfoldable pub le : ℕ → ℕ → List ℕ
le zero x = []
le (suc n) x = x % 256 ∷ le n (x / 256)

pub read_le-le : (n x : ℕ) (rest : List ℕ) → x < 256 ^ n → read_le n (le n x ++ rest) ≡ x
unfolding read_le le
read_le-le zero x rest h = omega arith
read_le-le (suc n) x rest h =
    omega (arith, read_le-le n (x / 256) rest (omega (arith, pow-suc 256 n, h)))

-- The tag and the payload of a message.
unfoldable pub type_of : ParsedMsg → MsgType
type_of (parsed_add m) = add_order
type_of (parsed_modify m) = modify_order
type_of (parsed_cancel m) = cancel_order
type_of (parsed_trade m) = trade
type_of (parsed_clear m) = clear
type_of (parse_error e) = unknown 0

abbrev pub side_byte : Side → ℕ
side_byte bid = 0
side_byte ask = 1
side_byte (other n) = n

abbrev pub header : ℕ → ℕ → List ℕ → List ℕ
header seq_no ts_exchange rest = le 8 seq_no ++ le 8 ts_exchange ++ rest

unfoldable pub encode : ParsedMsg → List ℕ → List ℕ
unfolding le
encode (parsed_add m) rest = header m.seq_no m.ts_exchange (
    le 8 m.order_id
    ++ le 4 m.instrument_id
    ++ le 4 m.price_ticks
    ++ le 4 m.qty
    ++ (side_byte m.side ∷ rest))
encode (parsed_modify m) rest =
    header m.seq_no m.ts_exchange
      (le 8 m.order_id ++ le 4 m.instrument_id ++ le 4 m.new_price_ticks ++ le 4 m.new_qty ++ rest)
encode (parsed_cancel m) rest =
    header m.seq_no m.ts_exchange
      (le 8 m.order_id ++ le 4 m.instrument_id ++ le 4 m.canceled_qty ++ rest)
encode (parsed_trade m) rest = header m.seq_no m.ts_exchange (
    le 8 m.order_id
    ++ le 4 m.instrument_id
    ++ le 4 m.price_ticks
    ++ le 4 m.qty
    ++ (side_byte m.side ∷ rest))
encode (parsed_clear m) rest = header m.seq_no m.ts_exchange (le 4 m.instrument_id ++ rest)
encode (parse_error e) rest = rest

-- The values that a uint32_t and a uint64_t hold.
abbrev pub Word32 : ℕ → Type 0
Word32 n = n < 256 ^ 4

abbrev pub Word64 : ℕ → Type 0
Word64 n = n < 256 ^ 8

-- The fields fit their widths; adds, modifies and trades have a quantity, adds a price and a side that
-- is bid or ask, and trades a side that comes back from its byte.
abbrev pub IsEncodable : ParsedMsg → Type 0
IsEncodable (parsed_add m) =
    Word64 m.seq_no
    × Word64 m.ts_exchange
    × Word64 m.order_id
    × Word32 m.instrument_id
    × Word32 m.price_ticks
    × Word32 m.qty
    × (m.qty ≢ 0)
    × (m.price_ticks ≢ 0)
    × (is_invalid_side m.side ≡ false)
IsEncodable (parsed_modify m) =
    Word64 m.seq_no
    × Word64 m.ts_exchange
    × Word64 m.order_id
    × Word32 m.instrument_id
    × Word32 m.new_price_ticks
    × Word32 m.new_qty
    × (m.new_qty ≢ 0)
IsEncodable (parsed_cancel m) =
    Word64 m.seq_no
    × Word64 m.ts_exchange
    × Word64 m.order_id
    × Word32 m.instrument_id
    × Word32 m.canceled_qty
IsEncodable (parsed_trade m) =
    Word64 m.seq_no
    × Word64 m.ts_exchange
    × Word64 m.order_id
    × Word32 m.instrument_id
    × Word32 m.price_ticks
    × Word32 m.qty
    × (m.qty ≢ 0)
    × (to_side (side_byte m.side) ≡ m.side)
IsEncodable (parsed_clear m) = Word64 m.seq_no × Word64 m.ts_exchange × Word32 m.instrument_id
IsEncodable (parse_error e) = 0 < 0

to_side_valid : (s : Side) → is_invalid_side s ≡ false → to_side (side_byte s) ≡ s
unfolding to_side
to_side_valid bid h = refl
to_side_valid ask h = refl
to_side_valid (other n) h = cc

-- A message with fields in their widths, a nonzero quantity where there is one, for an add a nonzero
-- price and a side that is bid or ask, and for a trade a side that a byte stands for once only,
-- written in the wire format and parsed, comes back; bytes after it do no harm.
pub parse-encode :
    (m : ParsedMsg) (rest : List ℕ) → IsEncodable m → parse (type_of m) (encode m rest) ≡ m
unfolding parse parse_add parse_modify parse_cancel parse_trade parse_clear encode le type_of
parse-encode (parsed_add m) rest (h0, h1, h2, h3, h4, h5, nz, np, s) =
    let long : ltb (length (encode (parsed_add m) rest)) 37 ≡ false = ltb_of_le (omega arith) in
    let t4 = le 4 m.qty ++ (side_byte m.side ∷ rest) in
    let t3 = le 4 m.price_ticks ++ t4 in
    let t2 = le 4 m.instrument_id ++ t3 in
    let t1 = le 8 m.order_id ++ t2 in
    let t0 = le 8 m.ts_exchange ++ t1 in
    let e0 = read_le-le 8 m.seq_no t0 h0 in
    let e1 = read_le-le 8 m.ts_exchange t1 h1 in
    let e2 = read_le-le 8 m.order_id t2 h2 in
    let e3 = read_le-le 4 m.instrument_id t3 h3 in
    let e4 = read_le-le 4 m.price_ticks t4 h4 in
    let e5 = read_le-le 4 m.qty ((side_byte m.side ∷ rest)) h5 in
    rw
      (
        parse,
        parse_add,
        long,
        e0,
        e1,
        e2,
        e3,
        e4,
        e5,
        check_add,
        ==_of_ne nz,
        ==_of_ne np,
        to_side_valid m.side s,
        s,
      )
      refl
parse-encode (parsed_modify m) rest (h0, h1, h2, h3, h4, h5, nz) =
    let long : ltb (length (encode (parsed_modify m) rest)) 36 ≡ false = ltb_of_le (omega arith) in
    let t4 = le 4 m.new_qty ++ rest in
    let t3 = le 4 m.new_price_ticks ++ t4 in
    let t2 = le 4 m.instrument_id ++ t3 in
    let t1 = le 8 m.order_id ++ t2 in
    let t0 = le 8 m.ts_exchange ++ t1 in
    let e0 = read_le-le 8 m.seq_no t0 h0 in
    let e1 = read_le-le 8 m.ts_exchange t1 h1 in
    let e2 = read_le-le 8 m.order_id t2 h2 in
    let e3 = read_le-le 4 m.instrument_id t3 h3 in
    let e4 = read_le-le 4 m.new_price_ticks t4 h4 in
    let e5 = read_le-le 4 m.new_qty rest h5 in
    rw (parse, parse_modify, long, e0, e1, e2, e3, e4, e5, check_modify, ==_of_ne nz) refl
parse-encode (parsed_cancel m) rest (h0, h1, h2, h3, h4) =
    let long : ltb (length (encode (parsed_cancel m) rest)) 32 ≡ false = ltb_of_le (omega arith) in
    let t3 = le 4 m.canceled_qty ++ rest in
    let t2 = le 4 m.instrument_id ++ t3 in
    let t1 = le 8 m.order_id ++ t2 in
    let t0 = le 8 m.ts_exchange ++ t1 in
    let e0 = read_le-le 8 m.seq_no t0 h0 in
    let e1 = read_le-le 8 m.ts_exchange t1 h1 in
    let e2 = read_le-le 8 m.order_id t2 h2 in
    let e3 = read_le-le 4 m.instrument_id t3 h3 in
    let e4 = read_le-le 4 m.canceled_qty rest h4 in
    rw (parse, parse_cancel, long, e0, e1, e2, e3, e4) refl
parse-encode (parsed_trade m) rest (h0, h1, h2, h3, h4, h5, nz, s) =
    let long : ltb (length (encode (parsed_trade m) rest)) 37 ≡ false = ltb_of_le (omega arith) in
    let t4 = le 4 m.qty ++ (side_byte m.side ∷ rest) in
    let t3 = le 4 m.price_ticks ++ t4 in
    let t2 = le 4 m.instrument_id ++ t3 in
    let t1 = le 8 m.order_id ++ t2 in
    let t0 = le 8 m.ts_exchange ++ t1 in
    let e0 = read_le-le 8 m.seq_no t0 h0 in
    let e1 = read_le-le 8 m.ts_exchange t1 h1 in
    let e2 = read_le-le 8 m.order_id t2 h2 in
    let e3 = read_le-le 4 m.instrument_id t3 h3 in
    let e4 = read_le-le 4 m.price_ticks t4 h4 in
    let e5 = read_le-le 4 m.qty ((side_byte m.side ∷ rest)) h5 in
    rw (parse, parse_trade, long, e0, e1, e2, e3, e4, e5, s, check_trade, ==_of_ne nz) refl
parse-encode (parsed_clear m) rest (a, b, c) =
    let long : ltb (length (encode (parsed_clear m) rest)) 20 ≡ false = ltb_of_le (omega arith) in
    let body = le 4 m.instrument_id ++ rest in
    let seq = read_le-le 8 m.seq_no (le 8 m.ts_exchange ++ body) a in
    let ts = read_le-le 8 m.ts_exchange body b in
    let instrument = read_le-le 4 m.instrument_id rest c in
    rw (parse, parse_clear, long, seq, ts, instrument) refl
parse-encode (parse_error e) rest w = absurd (omega arith)
