-- ===== src/Pipeline/Book.antt =====
-- The book of src/app/main_replay.cpp after a replay of a native feed.
use mockex.Prelude.{ℕ, ◌+◌, ◌^◌, ◌<◌, ◌≡◌, refl, ap, ◌∙◌, arith, take, length, min, zero, suc}
use mockex.Prelude.{List, [], ◌∷◌, All, length-take}
use mathlib.Core.List.{map}
use mockex.Parser.{ParsedMsg, parsed_add, parsed_modify, parsed_cancel, parsed_trade, parsed_clear}
use mockex.Parser.{parse_error, parse}
use mockex.Parser.RoundTrip.{IsEncodable}
use mockex.ReplayReader.{RawMsg, open_file, mapped}
use mockex.ReplayReader
use mockex.ReplayReader.Frames.{frames, IsCut}
use mockex.ReplayReader.Feed.{raw_of, parse_raw, parse-feed}
use mockex.OrderBook
use mockex.OrderBook.{OrderBook}
use mockex.OrderBook.Events.{Event, add, modify, cancel, trade, clear_all, apply, run, IsInRange}
use mockex.OrderBook.Best.{IsBest, run-IsBest}
use mockex.MarketMaker.{StrategyConfig}
use mockex.OrderGateway.{FillInfo}
use mockex.Pipeline
use mockex.Pipeline.{Session, create, on_one_fill, on_parsed, on_raw, replay, ingress, on_update}
use mockex.Pipeline.Invariants.{Anything, KeptByUpdates, KeptInside-KeptByUpdates, on_update-kept}
use mockex.Pipeline.Turns.{on_raws, on_raws_count, replay_turns}

-- What the messages mean to the book; a payload that does not parse means nothing.
unfoldable pub events : List ParsedMsg → List Event
events [] = []
events (parsed_add m ∷ ms) = add m.order_id m.price_ticks m.qty m.side ∷ events ms
events (parsed_modify m ∷ ms) = modify m.order_id m.new_price_ticks m.new_qty ∷ events ms
events (parsed_cancel m ∷ ms) = cancel m.order_id ∷ events ms
events (parsed_trade m ∷ ms) = trade m.order_id m.qty ∷ events ms
events (parsed_clear m ∷ ms) = clear_all ∷ events ms
events (parse_error e ∷ ms) = events ms

abbrev HasBook : OrderBook → Session → Type 0
HasBook b s = s.book ≡ b

on_one_fill_book :
    (b : OrderBook) (s : Session) (f : FillInfo) → HasBook b s → HasBook b (on_one_fill s f)
unfolding on_one_fill
on_one_fill_book b s f h = h

module _ (clock : ℕ → ℕ) where
  HasBook-KeptByUpdates : (b : OrderBook) → KeptByUpdates clock (HasBook b) Anything
  HasBook-KeptByUpdates b = KeptInside-KeptByUpdates clock (HasBook b) (record {
    measured = λ s label since h. h;
    risked = λ s e h. h;
    gated = λ s g h. h;
    filled = on_one_fill_book b;
  })

  -- The answers to a change leave the book as the change made it.
  pub on_event_book :
      (t1 : ℕ) (s : Session) (seq : ℕ) (e : Event)
      → (Pipeline.on_event clock t1 s seq e).book ≡ (apply s.book e).0
  on_event_book t1 s seq e =
      on_update-kept clock (HasBook (apply s.book e).0) (HasBook-KeptByUpdates _) t1 _
        (apply s.book e).1 refl

  module _ (t1 : ℕ) (s : Session) (m : ParsedMsg) where
    on_parsed_book :
        (ms : List ParsedMsg)
        → run (on_parsed clock t1 s m).book (events ms) ≡ run s.book (events (m ∷ ms))
    unfolding on_parsed run events
    on_parsed_book ms = go m
      where
        settled :
            (seq : ℕ) (e : Event)
            → run (Pipeline.on_event clock t1 s seq e).book (events ms)
              ≡ run (apply s.book e).0 (events ms)
        settled seq e = ap (λ b. run b (events ms)) (on_event_book t1 s seq e)

        go :
            (m : ParsedMsg)
            → run (on_parsed clock t1 s m).book (events ms) ≡ run s.book (events (m ∷ ms))
        go (parsed_add m) = settled m.seq_no (add m.order_id m.price_ticks m.qty m.side)
        go (parsed_modify m) = settled m.seq_no (modify m.order_id m.new_price_ticks m.new_qty)
        go (parsed_cancel m) = settled m.seq_no (cancel m.order_id)
        go (parsed_trade m) = settled m.seq_no (trade m.order_id m.qty)
        go (parsed_clear m) = settled m.seq_no clear_all
        go (parse_error e) = refl

  on_raws_book :
      (s : Session) (raws : List RawMsg)
      → (on_raws clock s raws).book ≡ run s.book (events (map parse_raw raws))
  unfolding on_raws on_raw run events
  on_raws_book s [] = refl
  on_raws_book s (raw ∷ raws) =
      on_raws_book (on_raw clock s raw) raws
      ∙ on_parsed_book _ (ingress clock s) (parse raw.type raw.payload) (map parse_raw raws)

map-take : (n : ℕ) (raws : List RawMsg) → map parse_raw (take n raws) ≡ take n (map parse_raw raws)
map-take zero raws = refl
map-take (suc n) [] = refl
map-take (suc n) (raw ∷ raws) = ap (λ ms. parse_raw raw ∷ ms) (map-take n raws)

length-parse_raw : (raws : List RawMsg) → length (map parse_raw raws) ≡ length raws
length-parse_raw [] = refl
length-parse_raw (raw ∷ raws) = ap suc (length-parse_raw raws)

pub create_start :
    (cfg : StrategyConfig) (freq : ℕ)
    → ((create cfg freq).msgs_processed ≡ 0) × ((create cfg freq).book ≡ OrderBook.create 0)
unfolding create
create_start cfg freq = (refl, refl)

take-events :
    (n : ℕ) (ms : List ParsedMsg) → All IsInRange (events ms) → All IsInRange (events (take n ms))
unfolding events
take-events zero ms h = tt
take-events (suc n) [] h = tt
take-events (suc n) (parsed_add m ∷ ms) h = (h.0, take-events n ms h.1)
take-events (suc n) (parsed_modify m ∷ ms) h = (h.0, take-events n ms h.1)
take-events (suc n) (parsed_cancel m ∷ ms) h = (tt, take-events n ms h.1)
take-events (suc n) (parsed_trade m ∷ ms) h = (tt, take-events n ms h.1)
take-events (suc n) (parsed_clear m ∷ ms) h = (tt, take-events n ms h.1)
take-events (suc n) (parse_error e ∷ ms) h = take-events n ms h

-- The session after the replay of a file of messages, from the start, with a round for each byte.
abbrev pub session_of : (ℕ → ℕ) → StrategyConfig → ℕ → ℕ → List ParsedMsg → List ℕ → Session
session_of clock cfg freq max_msgs ms tail =
    let file = frames (map raw_of ms) tail in
    (replay clock (length file + 1) max_msgs (open_file ReplayReader.create (mapped file)).0
      (create cfg freq)).0

module _ (clock : ℕ → ℕ) (cfg : StrategyConfig) (freq max_msgs : ℕ) (ms : List ParsedMsg)
    (tail : List ℕ) (small : max_msgs < 2 ^ 64) (encodable : All IsEncodable ms)
    (cut : IsCut tail) where
  abbrev read : List RawMsg
  read =
      let file = frames (map raw_of ms) tail in
      (ReplayReader.read_all (length file + 1) (open_file ReplayReader.create (mapped file)).0).1

  session_of_turns :
      session_of clock cfg freq max_msgs ms tail
      ≡ on_raws clock (create cfg freq) (take max_msgs read)
  session_of_turns =
      replay_turns clock _ max_msgs _ (create cfg freq) small
      ∙ ap (λ n. on_raws clock (create cfg freq) (take n read))
          (omega (arith, create_start cfg freq))

  -- From a file of the encodings of messages, with an end that is no whole frame, the replay, given a
  -- limit below 2 ^ 64 and a round for each byte of the file and one, processes as many messages as the
  -- limit allows, counts them, and leaves in the book what a new book is after their events. The fields
  -- of the messages have to fit their widths; adds, modifies and trades have a quantity that is not 0,
  -- adds a price that is not 0 and a side that is bid or ask, and trades a side that the byte it is
  -- written as stands for.
  pub session_of_book :
      let s = session_of clock cfg freq max_msgs ms tail in
      (s.msgs_processed ≡ min max_msgs (length ms))
      × (s.book ≡ run (OrderBook.create 0) (events (take max_msgs ms)))
  session_of_book =
      let feed = parse-feed ms tail encodable cut in
      let len = length-parse_raw read in
      let taken = length-take max_msgs read in
      rw session_of_turns (
        omega (
          arith,
          on_raws_count clock (create cfg freq) (take max_msgs read)
              (omega (arith, create_start cfg freq, taken)),
          create_start cfg freq,
          len,
          taken,
          ap length feed,
        ),
        on_raws_book clock (create cfg freq) (take max_msgs read)
            ∙ ap (λ xs. run (create cfg freq).book (events xs))
                (map-take max_msgs read ∙ ap (take max_msgs) feed)
            ∙ ap (λ b. run b (events (take max_msgs ms))) (create_start cfg freq).1,
      )

  -- If, besides, the prices are below the invalid price, the best bid and offer that the book keeps
  -- at the end are the best of its levels.
  pub session_of-IsBest :
      All IsInRange (events ms) → IsBest (session_of clock cfg freq max_msgs ms tail).book
  session_of-IsBest h = rw session_of_book.1 (run-IsBest 0 _ (take-events max_msgs ms h))
