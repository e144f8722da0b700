-- ===== src/Pipeline/Read.antt =====
-- What the parser of src/feed/itch_parser.cpp makes of a record, against what the book of
-- src/book/order_book.hpp makes of the parser's output.
use mockex.Prelude.{ℕ, ◌≡◌, sym, subst, List, true, false, ◌&&◌, length, Bool-cases, inl, inr}
use mockex.FlatHashMap.Same.{Same}
use mockex.ItchParser.{ItchParser, parse, to_type}
use mockex.ItchParser.Wire.{Header, Message, encode, type_of}
use mockex.ItchParser.Meaning
use mockex.ItchParser.Meaning.{ticks, passes, is_long, meaning, replace_of}
use mockex.ItchParser.Decode.{parse-meaning}
use mockex.ItchParser.Ignored.{is_ignored, parse-ignored}
use mockex.OrderBook.{OrderBook}
use mockex.OrderBook.Events.{run}
use mockex.Pipeline.Orders.{IsClean, Agrees, add_of-Same, executed_of-Same, executed_price_of-Same}
use mockex.Pipeline.Orders.{delete_of-Same, cancelled_of-Same, non_cross_of-Same, replace_of-Same}

meaning-Same :
    (p : ItchParser) (b : OrderBook) (h : Header) (m : Message)
    → Same p.orders b.orders
    → IsClean p.orders b.orders m
    → Agrees b (meaning p h m)
meaning-Same p b h (Message.add id side qty _ price) s c =
    add_of-Same p b s h.timestamp id (Meaning.side_of side) qty (ticks price) c
meaning-Same p b h (Message.add_mpid id side qty _ price _) s c =
    add_of-Same p b s h.timestamp id (Meaning.side_of side) qty (ticks price) c
meaning-Same p b h (Message.executed id qty _) s c = executed_of-Same p b s h.timestamp id qty c
meaning-Same p b h (Message.executed_price id qty _ _ price) s c =
    executed_price_of-Same p b s h.timestamp id qty (ticks price) c
meaning-Same p b h (Message.cancel id qty) s c = cancelled_of-Same p b s h.timestamp id qty c
meaning-Same p b h (Message.delete id) s c = delete_of-Same p b s h.timestamp id c
meaning-Same p b h (Message.replace id new_id qty price) s (kept, c) =
    subst (λ n. Agrees b (replace_of p h.timestamp id n qty (ticks price))) kept
      (replace_of-Same p b s h.timestamp id qty (ticks price) c)
meaning-Same p b h (Message.trade id side qty _ price _) s c =
    non_cross_of-Same p b s h.timestamp id (Meaning.side_of side) qty (ticks price) c

-- A message that the filter lets pass, and that the parser reads, has to be clean.
abbrev pub IsCleanRead : ItchParser → OrderBook → Header → Message → List ℕ → Type 0
IsCleanRead p b h m rest = elim (passes p h.locate && is_long m rest) [
  | true ↦ IsClean p.orders b.orders m
  | false ↦ Unit
]

pub parse-Same :
    (p : ItchParser) (b : OrderBook) (h : Header) (m : Message) (rest : List ℕ)
    → Same p.orders b.orders
    → IsCleanRead p b h m rest
    → Agrees b (parse (type_of m) p (encode h m rest))
unfolding run
parse-Same p b h m rest s c =
    subst (Agrees b) (sym (parse-meaning p h m rest))
      (elim (Bool-cases (passes p h.locate && is_long m rest)) [
        | inl read ↦ rw read (meaning-Same p b h m s (rw (read, IsCleanRead) at c))
        | inr skipped ↦ rw skipped s
      ])

-- A record that the parser ignores changes neither table.
pub ignored-Same :
    (p : ItchParser) (b : OrderBook) (c : ℕ) (bytes : List ℕ)
    → Same p.orders b.orders
    → is_ignored (to_type c) (length bytes) ≡ true
    → Agrees b (parse c p bytes)
unfolding run
ignored-Same p b c bytes s h = subst (Agrees b) (sym (parse-ignored c p bytes h)) s
