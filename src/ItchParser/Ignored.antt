-- ===== src/ItchParser/Ignored.antt =====
-- The records that src/feed/itch_parser.cpp skips whatever is open: those of a type that it does not
-- read, and those that are shorter than it asks for their type.
use mockex.Prelude.{ℕ, ◌≡◌, refl, List, Bool, true, ltb, length}
use mockex.ItchParser.{ItchParser, ItchType, skip, parse, dispatch, to_type}
use mockex.ItchParser.{parse_add, parse_executed, parse_executed_price, parse_cancel, parse_delete}
use mockex.ItchParser.{parse_replace, parse_trade}
use mockex.ItchParser.{add_order, add_order_mpid, executed, executed_price, order_cancel}
use mockex.ItchParser.{order_delete, replace, non_cross, other}

-- Of a type and a length.
abbrev pub is_ignored : ItchType → ℕ → Bool
is_ignored add_order len = ltb len 36
is_ignored add_order_mpid len = ltb len 40
is_ignored executed len = ltb len 31
is_ignored executed_price len = ltb len 36
is_ignored order_cancel len = ltb len 24
is_ignored order_delete len = ltb len 19
is_ignored replace len = ltb len 35
is_ignored non_cross len = ltb len 44
is_ignored other len = true

dispatch-ignored :
    (t : ItchType) (p : ItchParser) (bytes : List ℕ)
    → is_ignored t (length bytes) ≡ true
    → dispatch t p bytes ≡ skip p
unfolding dispatch parse_add parse_executed parse_executed_price parse_cancel parse_delete
    parse_replace parse_trade
dispatch-ignored add_order p bytes short = rw (parse_add, short) refl
dispatch-ignored add_order_mpid p bytes short = rw (parse_add, short) refl
dispatch-ignored executed p bytes short = rw (parse_executed, short) refl
dispatch-ignored executed_price p bytes short = rw (parse_executed_price, short) refl
dispatch-ignored order_cancel p bytes short = rw (parse_cancel, short) refl
dispatch-ignored order_delete p bytes short = rw (parse_delete, short) refl
dispatch-ignored replace p bytes short = rw (parse_replace, short) refl
dispatch-ignored non_cross p bytes short = rw (parse_trade, short) refl
dispatch-ignored other p bytes h = refl

pub parse-ignored :
    (c : ℕ) (p : ItchParser) (bytes : List ℕ)
    → is_ignored (to_type c) (length bytes) ≡ true
    → parse c p bytes ≡ skip p
unfolding parse
parse-ignored c p bytes h = dispatch-ignored (to_type c) p bytes h
