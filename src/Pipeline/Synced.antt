-- ===== src/Pipeline/Synced.antt =====
-- The ITCH loop of src/app/main_replay.cpp keeps the open orders of the parser and those of the book
-- in step.
use mockex.Prelude.{ℕ, zero, suc, ◌^◌, ◌<◌, ◌≤◌, ◌≡◌, refl, ap, sym, ◌∙◌, arith, take, subst}
use mockex.Prelude.{List, [], ◌∷◌, All, length}
use mathlib.Core.List.{map}
use mockex.FlatHashMap
use mockex.FlatHashMap.Same.{Same}
use mockex.FlatHashMap.Sound.{vacant-Sound}
use mockex.FlatHashMap.Totals.{cell, sum-zero, cell_empty}
use mockex.ItchParser
use mockex.ItchParser.{ItchParser, ItchParsed, skipped, parse}
use mockex.ItchParser.Wire.{Header, Message, encode, type_of}
use mockex.ItchReplayReader.{ItchRawMsg}
use mockex.ItchReplayReader.Records.{IsItem, End}
use mockex.OrderBook
use mockex.OrderBook.{OrderBook}
use mockex.OrderBook.Events.{Event, run}
use mockex.MarketMaker.{StrategyConfig}
use mockex.Pipeline.{Session, create, on_itch_raw, process_itch, ingress}
use mockex.Pipeline.Book.{create_start}
use mockex.Pipeline.ItchBook.{then_events, itch_events, on_itch_raws, on_itch_raws_book}
use mockex.Pipeline.ItchBook.{itch_session_of, itch_session_turned}
use mockex.ItchParser.{to_type}
use mockex.ItchParser.Ignored.{is_ignored}
use mockex.Prelude.{true}
use mockex.Pipeline.Read.{IsCleanRead, parse-Same, ignored-Same}

-- A record of the file: a message of the layout, with bytes behind it, or one that the parser ignores.
pub data Sent : Type 0 where
  told : Header → Message → List ℕ → Sent
  ignored : ItchRawMsg → Sent

abbrev pub raw : Sent → ItchRawMsg
raw (told h m rest) = record {
  msg_type = type_of m;
  payload = encode h m rest;
  len = length (encode h m rest);
}
raw (ignored m) = m

-- The parser after messages.
unfoldable pub parser_after : ItchParser → List ItchRawMsg → ItchParser
parser_after p [] = p
parser_after p (m ∷ ms) = parser_after (parse m.msg_type p m.payload).0 ms

-- Each message that is read is clean for the tables that those before it leave.
abbrev pub AreClean : ItchParser → OrderBook → List Sent → Type 0
AreClean p b [] = Unit
AreClean p b (told h m rest ∷ xs) =
    IsCleanRead p b h m rest
    × (let (p', parsed) = parse (type_of m) p (encode h m rest) in
        AreClean p' (run b (then_events parsed [])) xs)
AreClean p b (ignored m ∷ xs) =
    (is_ignored (to_type m.msg_type) (length m.payload) ≡ true)
    × (let (p', parsed) = parse m.msg_type p m.payload in
        AreClean p' (run b (then_events parsed [])) xs)

on_itch_raws_parser :
    (clock : ℕ → ℕ) (s : Session) (p : ItchParser) (ms : List ItchRawMsg)
    → (on_itch_raws clock (s, p) ms).1 ≡ parser_after p ms
unfolding on_itch_raws on_itch_raw parser_after
on_itch_raws_parser clock s p [] = refl
on_itch_raws_parser clock s p (m ∷ ms) =
    let (p', parsed) = parse m.msg_type p m.payload in
    on_itch_raws_parser clock (process_itch clock (clock (suc s.readings)) (ingress clock s) parsed)
      p' ms

run_then :
    (b : OrderBook) (parsed : ItchParsed) (es : List Event)
    → run (run b (then_events parsed [])) es ≡ run b (then_events parsed es)
unfolding run
run_then b (ItchParsed.add m) es = refl
run_then b (ItchParsed.modify m) es = refl
run_then b (ItchParsed.cancel m) es = refl
run_then b (ItchParsed.trade m) es = refl
run_then b skipped es = refl

sent-Same :
    (p : ItchParser) (b : OrderBook) (xs : List Sent)
    → Same p.orders b.orders
    → AreClean p b xs
    → Same (parser_after p (map raw xs)).orders (run b (itch_events p (map raw xs))).orders
unfolding parser_after run itch_events
sent-Same p b [] s c = s
sent-Same p b (told h m rest ∷ xs) s (c, cs) =
    let (p', parsed) = parse (type_of m) p (encode h m rest) in
    let es = itch_events p' (map raw xs) in
    subst (λ t. Same (parser_after p' (map raw xs)).orders t.orders) (run_then b parsed es)
      (sent-Same p' (run b (then_events parsed [])) xs (parse-Same p b h m rest s c) cs)
sent-Same p b (ignored m ∷ xs) s (c, cs) =
    let (p', parsed) = parse m.msg_type p m.payload in
    let es = itch_events p' (map raw xs) in
    subst (λ t. Same (parser_after p' (map raw xs)).orders t.orders) (run_then b parsed es)
      (sent-Same p' (run b (then_events parsed [])) xs (ignored-Same p b m.msg_type m.payload s c)
        cs)

-- The tables of a new parser and of a new book are both empty.
create-Same :
    (filter_locate id : ℕ)
    → Same (ItchParser.create 1048576 filter_locate).orders (OrderBook.create id).orders
unfolding ItchParser.create OrderBook.create FlatHashMap.create FlatHashMap.round_up
create-Same filter_locate id =
    let m = (ItchParser.create 1048576 filter_locate).orders in
    let m' = (OrderBook.create id).orders in
    record {
      left = vacant-Sound m 21 refl refl refl (λ _. refl);
      right = vacant-Sound m' 24 refl refl refl (λ _. refl);
      left_wide = omega arith;
      right_wide = omega arith;
      size = refl;
      small = omega arith;
      weighs = λ w.
          sum-zero (cell w m) m.capacity (λ i. cell_empty w m i refl)
          ∙ sym (sum-zero (cell w m') m'.capacity (λ i. cell_empty w m' i refl));
    }

take_all : (n : ℕ) (ms : List ItchRawMsg) → length ms ≤ n → take n ms ≡ ms
take_all zero [] h = refl
take_all (suc n) [] h = refl
take_all zero (m ∷ ms) h = absurd (omega arith)
take_all (suc n) (m ∷ ms) h = ap (λ (t : List ItchRawMsg). m ∷ t) (take_all n ms (omega arith))

-- From a file of records, each of its length that 16 bits hold and that is not 0 and with its type in
-- its first byte, no more than a limit below 2 ^ 64, that then ends in less than a record or goes on
-- with an empty one, the replay, given a round for each byte of the file and one, leaves the same open
-- orders in the parser, new and made for 2 ^ 20 of them, and in the book: whatever the entries of the
-- two tables are given as weights, the sums are the same. Each record has to be a message of the layout
-- of ITCH with any bytes behind it, of a type that the parser does not read, or shorter than the parser
-- asks for its type. A message that the parser reads and its filter lets pass has to be clean for the
-- tables that those before it leave: the search for its order ends alike in both, an add is of a new
-- nonzero id and comes to fewer than 2 ^ 64 - 1 orders, a cancel is of all that the order has left, a
-- trade outside the book names no order of the book, and a replace keeps the id.
pub replay_itch-Same :
    (clock : ℕ → ℕ) (cfg : StrategyConfig) (freq max_msgs filter_locate : ℕ) (xs : List Sent)
    (tail : List ℕ) {n : ℕ}
    → max_msgs < 2 ^ 64
    → length (map raw xs) ≤ max_msgs
    → All IsItem (map raw xs)
    → End tail n
    → AreClean (ItchParser.create 1048576 filter_locate) (OrderBook.create 0) xs
    → let parser = ItchParser.create 1048576 filter_locate in
      let (s, p) = itch_session_of clock cfg freq max_msgs parser (map raw xs) tail in
      Same p.orders s.book.orders
replay_itch-Same clock cfg freq max_msgs filter_locate xs tail {n} small enough valid end clean =
    let parser = ItchParser.create 1048576 filter_locate in
    let ms = map raw xs in
    let start = create cfg freq in
    let (_, no_book) = create_start cfg freq in
    let turned =
      itch_session_turned clock cfg freq max_msgs parser ms tail {n = n} small valid end
      ∙ ap (λ t. on_itch_raws clock (start, parser) t) (take_all max_msgs ms enough) in
    let book =
      on_itch_raws_book clock start parser ms ∙ ap (λ b. run b (itch_events parser ms)) no_book in
    rw (turned, on_itch_raws_parser clock start parser ms, book)
      (sent-Same parser (OrderBook.create 0) xs (create-Same filter_locate 0) clean)
