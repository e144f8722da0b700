-- ===== src/Parser.antt =====
-- src/feed/parser.hpp and src/feed/parser.cpp: the payload of one message of the native feed. A
-- buffer is the list of its bytes, and `len` the length of the list; numbers are little endian.
pub mod RoundTrip
pub mod Fields
pub mod Accepts
use mockex.Prelude.{
  ℕ, zero, suc, ◌+◌, ◌*◌, Bool, true, false, ltb, ◌==◌, if◌then◌else◌, List, [], ◌∷◌,
}
use mockex.Prelude.{length, drop, get_or}
use mockex.Types.{
  MsgType, add_order, modify_order, cancel_order, trade, clear, unknown, Side, bid, ask,
}
use mockex.Types.{other, AddOrderMsg, ModifyOrderMsg, CancelOrderMsg, TradeMsg, ClearMsg}
use mockex.Types.{add_order_wire_size, modify_order_wire_size, cancel_order_wire_size}
use mockex.Types.{trade_wire_size, clear_wire_size}

-- `reason`, one constructor for each text.
pub data ParseError : Type 0 where
  add_order_truncated add_order_zero_qty add_order_zero_price add_order_invalid_side : ParseError
  modify_order_truncated modify_order_zero_qty cancel_order_truncated : ParseError
  trade_truncated trade_zero_qty clear_truncated unknown_message_type : ParseError

pub data ParsedMsg : Type 0 where
  parsed_add : AddOrderMsg → ParsedMsg
  parsed_modify : ModifyOrderMsg → ParsedMsg
  parsed_cancel : CancelOrderMsg → ParsedMsg
  parsed_trade : TradeMsg → ParsedMsg
  parsed_clear : ClearMsg → ParsedMsg
  parse_error : ParseError → ParsedMsg

-- `memcpy` into an unsigned integer of so many bytes, on a little-endian machine.
unfoldable pub read_le : ℕ → List ℕ → ℕ
read_le zero bytes = 0
read_le (suc n) [] = 0
read_le (suc n) (b ∷ bytes) = b + 256 * read_le n bytes

-- `read_u64`, `read_u32` and `read_u8` at an offset.
abbrev pub read_u64 : List ℕ → ℕ → ℕ
read_u64 bytes offset = read_le 8 (drop offset bytes)

abbrev pub read_u32 : List ℕ → ℕ → ℕ
read_u32 bytes offset = read_le 4 (drop offset bytes)

abbrev pub read_u8 : List ℕ → ℕ → ℕ
read_u8 bytes offset = get_or bytes offset 0

-- `static_cast<Side>`
unfoldable pub to_side : ℕ → Side
to_side n = if n == 0 then bid else (if n == 1 then ask else other n)

-- `side != Side::Bid && side != Side::Ask`
abbrev pub is_invalid_side : Side → Bool
is_invalid_side bid = false
is_invalid_side ask = false
is_invalid_side (other n) = true

unfoldable pub check_add : AddOrderMsg → ParsedMsg
check_add msg =
    if msg.qty == 0
    then parse_error add_order_zero_qty
    else (if msg.price_ticks == 0
        then parse_error add_order_zero_price
        else (if is_invalid_side msg.side
            then parse_error add_order_invalid_side
            else parsed_add msg))

unfoldable pub parse_add : List ℕ → ParsedMsg
unfolding check_add
parse_add bytes =
    if ltb (length bytes) add_order_wire_size
    then parse_error add_order_truncated
    else check_add (record {
      seq_no = read_u64 bytes 0;
      ts_exchange = read_u64 bytes 8;
      order_id = read_u64 bytes 16;
      instrument_id = read_u32 bytes 24;
      price_ticks = read_u32 bytes 28;
      qty = read_u32 bytes 32;
      side = to_side (read_u8 bytes 36);
    })

unfoldable pub check_modify : ModifyOrderMsg → ParsedMsg
check_modify msg = if msg.new_qty == 0 then parse_error modify_order_zero_qty else parsed_modify msg

unfoldable pub parse_modify : List ℕ → ParsedMsg
unfolding check_modify
parse_modify bytes =
    if ltb (length bytes) modify_order_wire_size
    then parse_error modify_order_truncated
    else check_modify (record {
      seq_no = read_u64 bytes 0;
      ts_exchange = read_u64 bytes 8;
      order_id = read_u64 bytes 16;
      instrument_id = read_u32 bytes 24;
      new_price_ticks = read_u32 bytes 28;
      new_qty = read_u32 bytes 32;
    })

unfoldable pub parse_cancel : List ℕ → ParsedMsg
parse_cancel bytes =
    if ltb (length bytes) cancel_order_wire_size
    then parse_error cancel_order_truncated
    else parsed_cancel (record {
      seq_no = read_u64 bytes 0;
      ts_exchange = read_u64 bytes 8;
      order_id = read_u64 bytes 16;
      instrument_id = read_u32 bytes 24;
      canceled_qty = read_u32 bytes 28;
    })

unfoldable pub check_trade : TradeMsg → ParsedMsg
check_trade msg = if msg.qty == 0 then parse_error trade_zero_qty else parsed_trade msg

unfoldable pub parse_trade : List ℕ → ParsedMsg
unfolding check_trade
parse_trade bytes =
    if ltb (length bytes) trade_wire_size
    then parse_error trade_truncated
    else check_trade (record {
      seq_no = read_u64 bytes 0;
      ts_exchange = read_u64 bytes 8;
      order_id = read_u64 bytes 16;
      instrument_id = read_u32 bytes 24;
      price_ticks = read_u32 bytes 28;
      qty = read_u32 bytes 32;
      side = to_side (read_u8 bytes 36);
    })

unfoldable pub parse_clear : List ℕ → ParsedMsg
parse_clear bytes =
    if ltb (length bytes) clear_wire_size
    then parse_error clear_truncated
    else parsed_clear (record {
      seq_no = read_u64 bytes 0;
      ts_exchange = read_u64 bytes 8;
      instrument_id = read_u32 bytes 16;
    })

unfoldable pub parse : MsgType → List ℕ → ParsedMsg
unfolding parse_add parse_modify parse_cancel parse_trade parse_clear
parse add_order bytes = parse_add bytes
parse modify_order bytes = parse_modify bytes
parse cancel_order bytes = parse_cancel bytes
parse trade bytes = parse_trade bytes
parse clear bytes = parse_clear bytes
parse (unknown n) bytes = parse_error unknown_message_type
