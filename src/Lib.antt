-- ===== src/Lib.antt =====
-- A model of the exchange simulator of this repository: the feed parsers, the order book that the
-- feed drives, the strategy that quotes on it, the risk checks, the gateway, the matching engine
-- and the portfolio, the containers under them, and the two programs that run them on a feed, with
-- the theorems that make them correct.
--
-- How the parts interact: the replay loop (src/app/main_replay.cpp) parses each message and feeds
-- it to the order book; a book update goes to the strategy, whose intents the risk engine
-- validates against a snapshot of the portfolio; the gateway sends what is accepted to the
-- exchange; its fills go to the portfolio and back to the strategy.
--
-- Which file models what:
-- - Prelude: lists, Boolean tests, machine words. Prelude/Bits has the law of the masks,
--   Prelude/Int the signed machine types, Prelude/Wrap the law that wrapping may be put off.
-- - Types: src/common/types.hpp, the messages and records (kWireHeaderSize is wire_header_size,
--   and so on).
-- - Double: the operations on a double that the code uses, as an interface, and what IEEE 754 promises
--   of them. Clock: src/common/time.hpp on x86-64.
-- - FlatHashMap: src/common/flat_hash_map.hpp (FlatHashMap::find, insert, erase, clear, grow,
--   backward_shift). Its children prove what probing does (Probing), the invariant (Valid), an
--   insert with room (Place), the empty tables (Clear), growth (Grow), insert as a whole (Insert),
--   what holds of every entry (Entries), and where erase goes wrong (Erase). Totals adds up the
--   entries, Sound is the invariant that erase keeps, Refill an insert under it, Shift erase, and
--   Same compares two tables.
-- - PriceLevelMap: src/common/price_level_map.hpp (add, remove, rescan, clear), with its best
--   price after adds (Adds) and after a removal (Best).
-- - StdMap: the std::map of price levels, as its elements in key order.
-- - OrderBook: src/book/order_book.hpp (add_order, modify_order, cancel_order, apply_trade, clear,
--   invalidate_cache, maybe_bbo_update). OrderBook/Events has the dispatch of the replay loop;
--   Levels, Cache and Best are about the cached prices, Publish about the updates, RoundTrip about
--   single operations, Ledger and Balance about the levels against the stored orders.
-- - RiskEngine: src/risk/risk_engine.hpp. Portfolio: src/portfolio/portfolio.hpp. MarketMaker:
--   src/strategy/market_maker.hpp.
-- - ExchangeSim: src/exchange/exchange_sim.hpp (submit and its two matching loops, clear). Its
--   children hold the measures of a side (Sides), one round of a loop (Sweep), the loops (Loops),
--   the invariant (Uncrossed), what a new order does (Fills) and what the reports say (Reports).
-- - OrderGateway: src/gateway/order_gateway.hpp (submit_intent, process_reports).
-- - Parser: src/feed/parser.cpp; RoundTrip has the encodings, Fields and Accepts the bytes that it
--   accepts. ItchParser: src/feed/itch_parser.cpp; Wire has the layout of the messages, Meaning
--   what each does, Decode that the parser reads the one as the other, Ignored the records that
--   it skips, Sequence the numbers that it gives out.
-- - RingBuffer: src/common/ring_buffer.hpp (try_push, try_pop, empty, size), with its refinement
--   to a queue (Queue). RingBuffer/Threads has its two threads, each load and store of an atomic
--   index and each access of a slot a step of its own, in every order that release and acquire
--   allow; its children hold the arithmetic of the slots (Slots), the invariant (Invariant) and
--   what follows (Safety).
-- - ReplayReader and ItchReplayReader: src/feed/replay_reader.cpp and
--   src/feed/itch_replay_reader.cpp (open_file is open, next). Bounds and Frames are about the
--   native reader alone, Feed about it and the parser, Records about the ITCH reader.
-- - LatencyTracker: src/common/latency_tracker.hpp (record_span is record), with what the buffers
--   hold (Samples), the casts of doubles (Casts) and the printed table (Summary).
-- - Pipeline: src/app/main_replay.cpp, the objects of main and its two loops; Options has the
--   command line. Invariants lifts what each step keeps to the loops; Agree, Counts, Guard and
--   Position, Book, ItchBook, Turns, Readings and Clockless are about the loops;
--   Orders, Read and Synced compare the open orders of the ITCH parser with those of the book.
-- - Bench: src/app/main_bench.cpp, its loops and iterations, with their relation to the replay
--   (Replay).
-- - Tests: runs at concrete inputs.
--
-- Machine numbers: unsigned values are numbers with the wrap-around written out where the source
-- can wrap; int32_t and int64_t values are integers, wrapped after each sum. Signed overflow,
-- which C++ leaves undefined, wraps in the model.
--
-- Fuel: a probing loop has as many rounds as slots, which Valid.locate-ne-stuck shows to be
-- enough; insert and grow call each other to depth 2, which Grow shows to be enough; the
-- constructor's doubling has 64 rounds, as many as a size_t has bits; the backward shift has as
-- many rounds as slots. A probe that runs out of fuel has passed every slot and is reported as
-- stuck. The matching loop over the bids has one round more than there are bids, which Loops shows
-- to be enough. The loops over a feed have a round for each byte of the file and one; Bounds and
-- Turns show that to be enough for the native format.
--
-- Parameters: each reading of the clock, std::sort, strtoull and atoi, the operations on doubles
-- (products, quotients and casts; the expressions of the latency table and of the clock are written
-- out over them), the times and throughputs of the benchmark, which are doubles, the product of the
-- inventory with the double risk_skew_factor (a function in the strategy's configuration), and how
-- the system calls of open end.
--
-- Not modelled: empty and size of the ring buffer called while the other thread runs, the branches
-- of src/common/time.hpp for other processors, and printing.
pub mod Prelude
pub mod Types
pub mod Double
pub mod Clock
pub mod FlatHashMap
pub mod StdMap
pub mod PriceLevelMap
pub mod OrderBook
pub mod RiskEngine
pub mod Portfolio
pub mod MarketMaker
pub mod ExchangeSim
pub mod OrderGateway
pub mod Parser
pub mod ItchParser
pub mod ReplayReader
pub mod ItchReplayReader
pub mod RingBuffer
pub mod LatencyTracker
pub mod Pipeline
pub mod Bench
mod Tests
