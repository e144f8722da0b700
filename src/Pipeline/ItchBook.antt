-- ===== src/Pipeline/ItchBook.antt =====
-- The ITCH loop of src/app/main_replay.cpp: one turn after the other on the messages of the file,
-- and the book that they leave.
use mockex.Prelude.{
  ℕ, zero, suc, ◌+◌, ◌-◌, ◌^◌, ◌<◌, ◌≡◌, refl, ap, ◌∙◌, arith, leb, take, take-nil,
}
use mockex.Prelude.{
  List, [], ◌∷◌, All, length, min, length-take, Option-cases, Bool-cases, inl, inr,
}
use mockex.Prelude.{leb→le, false}
use mockex.ItchParser.{ItchParser, ItchParsed, skipped, parse}
use mockex.ReplayReader.{mapped}
use mockex.ItchReplayReader
use mockex.ItchReplayReader.{ItchReplayReader, ItchRawMsg, next, read_all, open_file, collect}
use mockex.ItchReplayReader.Records.{items, IsItem, End, read_all-items}
use mockex.OrderBook
use mockex.OrderBook.{OrderBook}
use mockex.OrderBook.Events.{Event, add, modify, cancel, trade, run}
use mockex.MarketMaker.{StrategyConfig}
use mockex.Pipeline.{Session, create, on_itch_raw, process_itch, replay_itch, ingress}
use mockex.Pipeline.Turns.{on_itch_raw_count}
use mockex.Pipeline.Book.{on_event_book, create_start}

-- Turns on messages.
unfoldable pub on_itch_raws :
    (ℕ → ℕ) → Session × ItchParser → List ItchRawMsg → Session × ItchParser
on_itch_raws clock s [] = s
on_itch_raws clock s (m ∷ ms) = on_itch_raws clock (on_itch_raw clock s m) ms

-- What a message that was parsed means to the book, before other events.
abbrev pub then_events : ItchParsed → List Event → List Event
then_events (ItchParsed.add m) es = add m.order_id m.price_ticks m.qty m.side ∷ es
then_events (ItchParsed.modify m) es = modify m.order_id m.new_price_ticks m.new_qty ∷ es
then_events (ItchParsed.cancel m) es = cancel m.order_id ∷ es
then_events (ItchParsed.trade m) es = trade m.order_id m.qty ∷ es
then_events skipped es = es

-- What the messages mean to the book, from a state of the parser on.
unfoldable pub itch_events : ItchParser → List ItchRawMsg → List Event
itch_events p [] = []
itch_events p (m ∷ ms) =
    let (p', parsed) = parse m.msg_type p m.payload in then_events parsed (itch_events p' ms)

module _ (clock : ℕ → ℕ) where
  turns_left :
      (s : Session) (p : ItchParser) (m : ItchRawMsg) (max_msgs : ℕ)
      → max_msgs < 2 ^ 64
      → leb max_msgs s.msgs_processed ≡ false
      → max_msgs - s.msgs_processed ≡ suc (max_msgs - (on_itch_raw clock (s, p) m).0.msgs_processed)
  turns_left s p m max_msgs small more = ground (arith, on_itch_raw_count clock s p m)

  replay_itch_turns :
      (fuel max_msgs : ℕ) (r : ItchReplayReader) (s : Session) (p : ItchParser)
      → max_msgs < 2 ^ 64
      → (replay_itch clock fuel max_msgs r (s, p)).0
        ≡ on_itch_raws clock (s, p) (take (max_msgs - s.msgs_processed) (read_all fuel r).1)
  unfolding replay_itch read_all on_itch_raws
  replay_itch_turns zero max_msgs r s p small = rw (take-nil (max_msgs - s.msgs_processed)) refl
  replay_itch_turns (suc fuel) max_msgs r s p small = elim (Option-cases (next r).1) [
    | inl over ↦ rw (over, replay_itch, read_all, take-nil (max_msgs - s.msgs_processed)) refl
    | inr (m, e) ↦ elim (Bool-cases (leb max_msgs s.msgs_processed)) [
      | inl full ↦
          let none_left : max_msgs - s.msgs_processed ≡ 0 = omega (arith, leb→le _ _ full) in
          rw (e, full, none_left, replay_itch) refl
      | inr more ↦
          let (t, p') = on_itch_raw clock (s, p) m in
          let ih = replay_itch_turns fuel max_msgs (next r).0 t p' small in
          rw (e, more, turns_left s p m max_msgs small more, replay_itch, read_all) ih
    ]
  ]

  on_itch_raws_count :
      (s : Session) (p : ItchParser) (ms : List ItchRawMsg)
      → s.msgs_processed + length ms < 2 ^ 64
      → (on_itch_raws clock (s, p) ms).0.msgs_processed ≡ s.msgs_processed + length ms
  unfolding on_itch_raws
  on_itch_raws_count s p [] h = omega arith
  on_itch_raws_count s p (m ∷ ms) h =
      let one = on_itch_raw_count clock s p m in
      let (t, p') = on_itch_raw clock (s, p) m in
      omega (arith, one, on_itch_raws_count t p' ms (omega (arith, one)))

  process_itch_book :
      (t1 : ℕ) (s : Session) (m : ItchParsed) (es : List Event)
      → run (process_itch clock t1 s m).book es ≡ run s.book (then_events m es)
  unfolding process_itch run
  process_itch_book t1 s (ItchParsed.add m) es =
      ap (λ b. run b es)
        (on_event_book clock t1 s m.seq_no (add m.order_id m.price_ticks m.qty m.side))
  process_itch_book t1 s (ItchParsed.modify m) es =
      ap (λ b. run b es)
        (on_event_book clock t1 s m.seq_no (modify m.order_id m.new_price_ticks m.new_qty))
  process_itch_book t1 s (ItchParsed.cancel m) es =
      ap (λ b. run b es) (on_event_book clock t1 s m.seq_no (cancel m.order_id))
  process_itch_book t1 s (ItchParsed.trade m) es =
      ap (λ b. run b es) (on_event_book clock t1 s m.seq_no (trade m.order_id m.qty))
  process_itch_book t1 s skipped es = refl

  pub on_itch_raws_book :
      (s : Session) (p : ItchParser) (ms : List ItchRawMsg)
      → (on_itch_raws clock (s, p) ms).0.book ≡ run s.book (itch_events p ms)
  unfolding on_itch_raws on_itch_raw itch_events run
  on_itch_raws_book s p [] = refl
  on_itch_raws_book s p (m ∷ ms) =
      let (p', parsed) = parse m.msg_type p m.payload in
      on_itch_raws_book (process_itch clock (clock (suc s.readings)) (ingress clock s) parsed) p' ms
      ∙ process_itch_book _ (ingress clock s) parsed (itch_events p' ms)

-- The session and the parser after the replay of a file of records, from the start, with a round
-- for each byte.
abbrev pub itch_session_of :
    (ℕ → ℕ) → StrategyConfig → ℕ → ℕ → ItchParser → List ItchRawMsg → List ℕ → Session × ItchParser
itch_session_of clock cfg freq max_msgs p ms tail =
    let file = items ms tail in
    (replay_itch clock (length file + 1) max_msgs
      (open_file ItchReplayReader.create (mapped file)).0 (create cfg freq, p)).0

-- The replay takes its turns on the messages of the file, as many as the limit allows.
pub itch_session_turned :
    (clock : ℕ → ℕ) (cfg : StrategyConfig) (freq max_msgs : ℕ) (p : ItchParser)
    (ms : List ItchRawMsg) (tail : List ℕ) {n : ℕ}
    → max_msgs < 2 ^ 64
    → All IsItem ms
    → End tail n
    → itch_session_of clock cfg freq max_msgs p ms tail
      ≡ on_itch_raws clock (create cfg freq, p) (take max_msgs ms)
itch_session_turned clock cfg freq max_msgs p ms tail {n} small valid end =
    let start = create cfg freq in
    let (none_yet, _) = create_start cfg freq in
    let reader = (open_file ItchReplayReader.create (mapped (items ms tail))).0 in
    let rounds = length (items ms tail) + 1 in
    let (read, _) = read_all-items ms tail {n = n} valid end in
    let all_left : max_msgs - start.msgs_processed ≡ max_msgs = omega (arith, none_yet) in
    replay_itch_turns clock rounds max_msgs reader start p small
    ∙ ap (λ k. on_itch_raws clock (start, p) (take k (read_all rounds reader).1)) all_left
    ∙ ap (λ xs. on_itch_raws clock (start, p) (take max_msgs xs)) read

-- From a file of records with nonempty payloads, each of its length that 16 bits hold and with the
-- type in its first byte, that then ends in less than a record or goes on with an empty one, the
-- replay, given a round for each byte of the file and one, processes as many messages as a limit
-- below 2 ^ 64 allows, counts them, and leaves in the book what a new book is after the events that
-- the parser makes of them, one after the other, each with the orders that the messages before it
-- left in its table.
pub itch_session_of_book :
    (clock : ℕ → ℕ) (cfg : StrategyConfig) (freq max_msgs : ℕ) (p : ItchParser)
    (ms : List ItchRawMsg) (tail : List ℕ) {n : ℕ}
    → max_msgs < 2 ^ 64
    → All IsItem ms
    → End tail n
    → let s = (itch_session_of clock cfg freq max_msgs p ms tail).0 in
      (s.msgs_processed ≡ min max_msgs (length ms))
      × (s.book ≡ run (OrderBook.create 0) (itch_events p (take max_msgs ms)))
itch_session_of_book clock cfg freq max_msgs p ms tail {n} small valid end =
    let start = create cfg freq in
    let (none_yet, no_book) = create_start cfg freq in
    let taken = take max_msgs ms in
    let turned = itch_session_turned clock cfg freq max_msgs p ms tail {n = n} small valid end in
    rw turned (
      omega (
        arith,
        on_itch_raws_count clock start p taken (omega (arith, none_yet, length-take max_msgs ms)),
        none_yet,
        length-take max_msgs ms,
      ),
      on_itch_raws_book clock start p taken ∙ ap (λ b. run b (itch_events p taken)) no_book,
    )
