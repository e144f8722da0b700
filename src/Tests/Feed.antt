-- ===== src/Tests/Feed.antt =====
-- The parsers of src/feed.
use mockex.Prelude.{ℕ, ◌≡◌, refl, arith, ◌&&◌, if◌then◌else◌, List, [], ◌∷◌}
use mockex.Types.{bid, clear}
use mathlib.Core.Logic.{◌↔◌}
use mockex.Parser.Accepts.{IsMsg, Accepted, parse-accept_iff}
use mockex.Parser.{
  ParsedMsg, parsed_add, parsed_clear, parse, parse_error, clear_truncated, parse_clear,
}
use mockex.ItchParser
use mockex.ItchParser.{ItchParser, skip}
use mockex.ItchParser.Wire.{Header, Message, encode, type_of}
use mockex.ItchParser.Meaning.{passes, is_long, meaning}
use mockex.ItchParser.Decode.{parse-meaning}

abbrev add_msg : ParsedMsg
add_msg = parsed_add (record {
  seq_no = 1;
  ts_exchange = 1000;
  order_id = 77;
  instrument_id = 3;
  price_ticks = 950;
  qty = 20;
  side = bid;
})

short_clear : parse clear (1 ∷ 2 ∷ []) ≡ parse_error clear_truncated
unfolding parse parse_clear
short_clear = refl

abbrev clear_bytes : List ℕ
clear_bytes = 1 ∷ 0 ∷ 0 ∷ 0 ∷ 0 ∷ 0 ∷ 0 ∷ 0 ∷ 2 ∷ 0 ∷ 0 ∷ 0 ∷ 0 ∷ 0 ∷ 0 ∷ 0 ∷ 3 ∷ 1 ∷ 0 ∷ 0 ∷ 9 ∷ []

abbrev clear_msg : ParsedMsg
clear_msg = parsed_clear (record { seq_no = 1; ts_exchange = 2; instrument_id = 259 })

parse-accept_iff_example :
    ((parse clear clear_bytes ≡ clear_msg) × IsMsg clear_msg) ↔ Accepted clear clear_bytes clear_msg
parse-accept_iff_example = parse-accept_iff clear clear_bytes clear_msg (omega arith)

abbrev itch_header : Header
itch_header = record { locate = 0; tracking = 0; timestamp = 9 }

-- An add of 5 at 1.00 under id 7, on the bid side.
abbrev itch_add : Message
itch_add = Message.add 7 66 5 0 10000

parse-meaning_example :
    let s = ItchParser.create 16 3 in
    ItchParser.parse (type_of itch_add) s (encode itch_header itch_add []) ≡ (
      if passes s itch_header.locate && is_long itch_add []
      then meaning s itch_header itch_add
      else skip s)
parse-meaning_example = parse-meaning (ItchParser.create 16 3) itch_header itch_add []
