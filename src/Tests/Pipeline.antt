-- ===== src/Tests/Pipeline.antt =====
-- The programs of src/app on a feed of three orders.
use mockex.Prelude.{
  ℕ, ◌+◌, ◌*◌, ◌-◌, ◌^◌, ◌<◌, ◌≤◌, ◌≡◌, ◌⊎◌, refl, arith, inl, List, [], ◌∷◌, min, length, take,
  none, All,
}
use mathlib.Core.List.{map}
use mockex.Prelude.Int.{pos}
use mockex.Types.{bid, ask}
use mockex.Parser.{ParsedMsg, parsed_add}
use mockex.ItchParser
use mockex.ItchParser.{ItchParser}
use mockex.MarketMaker.{StrategyConfig}
use mockex.ReplayReader
use mockex.ReplayReader.{ReplayReader, open_file, mapped}
use mockex.ReplayReader.Frames.{frames}
use mockex.ReplayReader.Feed.{raw_of}
use mockex.ItchReplayReader
use mockex.ItchReplayReader.{ItchReplayReader}
use mockex.ReplayReader.Bounds.{IsValid}
use mockex.Parser.RoundTrip.{IsEncodable, encode, type_of, le}
use mockex.OrderBook
use mockex.OrderBook.Events.{run, IsInRange}
use mockex.Portfolio.Bounds.{IsBounded}
use mockex.Pipeline.Position.{replay-IsBounded}
use mockex.Pipeline.Agree.{IsAgreed, replay-IsAgreed}
use mockex.Pipeline.Counts.{IsCounted, replay-IsCounted}
use mockex.Pipeline.Clockless.{blind, clocks_agree}
use mockex.Pipeline.Turns.{replay-ends}
use mockex.Pipeline.Book.{events, session_of, session_of_book}
use mockex.Bench
use mockex.Bench.Replay.{view, run-replay}
use mockex.ItchParser.Wire.{Header, Message}
use mockex.ItchParser.Wire
use mockex.ItchReplayReader.{ItchRawMsg}
use mockex.ItchReplayReader.Records.{IsItem, End}
use mockex.Pipeline.ItchBook.{itch_events, itch_session_of, itch_session_of_book}
use mockex.Pipeline.{create, replay, replay_itch}

abbrev pub cfg : StrategyConfig
cfg = record {
  base_spread_ticks = 2;
  lot_size = 100;
  max_position = pos 1000;
  skew_of = λ z. pos 0;
  quote_offset_ticks = 1;
}

-- A bid at 1000, an ask at 1010 and a bid at 1040; on the last the strategy buys what it offered.
abbrev messages : List ParsedMsg
messages =
    parsed_add (record {
      seq_no = 1;
      ts_exchange = 0;
      order_id = 1;
      instrument_id = 0;
      price_ticks = 1000;
      qty = 5;
      side = bid;
    })
    ∷ parsed_add (record {
      seq_no = 2;
      ts_exchange = 0;
      order_id = 2;
      instrument_id = 0;
      price_ticks = 1010;
      qty = 5;
      side = ask;
    })
    ∷ parsed_add (record {
      seq_no = 3;
      ts_exchange = 0;
      order_id = 3;
      instrument_id = 0;
      price_ticks = 1040;
      qty = 5;
      side = bid;
    })
    ∷ []

abbrev file : List ℕ
file = frames (map raw_of messages) []

abbrev reader : ReplayReader
reader = (open_file ReplayReader.create (mapped file)).0

reader-IsValid : IsValid reader
unfolding open_file
reader-IsValid = record { whole = refl; inside = omega arith }

reader_rounds : reader.size < reader.pos + 200
unfolding open_file frames encode type_of le
reader_rounds = omega arith

abbrev itch_reader : ItchReplayReader
itch_reader = (ItchReplayReader.open_file ItchReplayReader.create (mapped (0 ∷ 1 ∷ 83 ∷ []))).0

abbrev itch_parser : ItchParser
itch_parser = ItchParser.create 16 0

-- A clock that ticks once for each reading.
abbrev pub ticks : ℕ → ℕ
ticks n = n

encodable : All IsEncodable messages
encodable = (
  (
    omega arith,
    omega arith,
    omega arith,
    omega arith,
    omega arith,
    omega arith,
    omega arith,
    omega arith,
    refl,
  ),
  (
    (
      omega arith,
      omega arith,
      omega arith,
      omega arith,
      omega arith,
      omega arith,
      omega arith,
      omega arith,
      refl,
    ),
    (
      (
        omega arith,
        omega arith,
        omega arith,
        omega arith,
        omega arith,
        omega arith,
        omega arith,
        omega arith,
        refl,
      ),
      tt,
    ),
  ),
)

in_range : All IsInRange (events messages)
unfolding events
in_range =
    ((omega arith, omega arith), ((omega arith, omega arith), ((omega arith, omega arith), tt)))

replay-IsBounded_example :
    let s = (replay ticks 200 1000 reader (create cfg 1)).0 in
    let t = (replay_itch ticks 200 1000 itch_reader (create cfg 1, itch_parser)).0.0 in
    IsBounded 1000 s.portfolio.position
    × IsBounded 1000 s.strategy.inventory
    × IsBounded 1000 t.portfolio.position
    × IsBounded 1000 t.strategy.inventory
replay-IsBounded_example =
    replay-IsBounded cfg refl (omega arith) ticks 1 200 1000 itch_parser reader itch_reader
      (omega arith)

session_of_book_example :
    let s = session_of ticks cfg 1 1000 messages [] in
    (s.msgs_processed ≡ min 1000 (length messages))
    × (s.book ≡ run (OrderBook.create 0) (events (take 1000 messages)))
session_of_book_example =
    session_of_book ticks cfg 1 1000 messages [] (omega arith) encodable (inl (omega arith))

replay-IsAgreed_example :
    IsAgreed (replay ticks 200 1000 reader (create cfg 1)).0
    × IsAgreed (replay_itch ticks 200 1000 itch_reader (create cfg 1, itch_parser)).0.0
replay-IsAgreed_example = replay-IsAgreed ticks cfg 1 200 1000 itch_parser reader itch_reader

replay-IsCounted_example :
    IsCounted (replay ticks 200 1000 reader (create cfg 1)).0
    × IsCounted (replay_itch ticks 200 1000 itch_reader (create cfg 1, itch_parser)).0.0
replay-IsCounted_example = replay-IsCounted ticks cfg 1 200 1000 itch_parser reader itch_reader

replay-ends_example :
    let (s, r) = replay ticks 200 2 reader (create cfg 1) in
    ((ReplayReader.next r).1 ≡ none) ⊎ (2 ≤ s.msgs_processed)
replay-ends_example = replay-ends ticks 200 2 reader (create cfg 1) reader-IsValid reader_rounds

run-replay_example :
    let (s, r) = replay ticks 200 (2 ^ 64 - 1) reader (create cfg 1) in
    let ((t, p), ir) = replay_itch ticks 200 (2 ^ 64 - 1) itch_reader (create cfg 1, itch_parser) in
    (Bench.run ticks 200 reader (Bench.create cfg 1 0) ≡ (view s, r))
    × (Bench.run_itch ticks 200 itch_reader (Bench.create cfg 1 0, itch_parser) ≡ ((view t, p), ir))
run-replay_example = run-replay ticks cfg 1 200 reader itch_reader itch_parser (omega arith)

clocks_agree_example :
    let (t, q) = replay ticks 200 1000 reader (create cfg 1) in
    let (t', q') = replay (λ n. n * n) 200 1000 reader (create cfg 24) in
    let ((u, p1), iq) = replay_itch ticks 200 1000 itch_reader (create cfg 1, itch_parser) in
    let ((u', p2), iq') =
      replay_itch (λ n. n * n) 200 1000 itch_reader (create cfg 24, itch_parser) in
    (blind t ≡ blind t') × (q ≡ q') × (blind u ≡ blind u') × (p1 ≡ p2) × (iq ≡ iq')
clocks_agree_example =
    clocks_agree ticks (λ n. n * n) cfg 1 24 200 1000 reader itch_reader itch_parser

abbrev itch_item : ℕ → Message → ItchRawMsg
itch_item len m = record {
  msg_type = Wire.type_of m;
  payload = Wire.encode (record { locate = 0; tracking = 0; timestamp = 9 }) m [];
  len = len;
}

-- An add of 5 at 1.00 under id 7, and its deletion.
abbrev itch_messages : List ItchRawMsg
itch_messages = itch_item 36 (Message.add 7 66 5 0 10000) ∷ itch_item 19 (Message.delete 7) ∷ []

itch_items : All IsItem itch_messages
unfolding Wire.encode
itch_items = (
  record { typed = refl; sized = refl; some_bytes = omega arith; fits = omega arith },
  (record { typed = refl; sized = refl; some_bytes = omega arith; fits = omega arith }, tt),
)

itch_session_of_book_example :
    let s = (itch_session_of ticks cfg 1 1000 itch_parser itch_messages (0 ∷ [])).0 in
    (s.msgs_processed ≡ min 1000 (length itch_messages))
    × (s.book ≡ run (OrderBook.create 0) (itch_events itch_parser (take 1000 itch_messages)))
itch_session_of_book_example =
    itch_session_of_book ticks cfg 1 1000 itch_parser itch_messages (0 ∷ []) (omega arith)
      itch_items (End.short (omega arith))
