-- ===== src/Tests/Synced.antt =====
-- The ITCH replay on an order that comes and goes.
use mockex.Prelude.{refl, arith, List, [], ◌∷◌, All}
use mathlib.Core.List.{map}
use mockex.FlatHashMap
use mockex.FlatHashMap.Same.{Same, both}
use mockex.FlatHashMap.Sound.{times_absent}
use mockex.ItchParser
use mockex.ItchParser.{ItchParser, parse, dispatch, parse_add, check_locate, read_price}
use mockex.ItchParser.Wire.{Message, encode}
use mockex.ItchReplayReader.Records.{IsItem, End}
use mockex.OrderBook
use mockex.OrderBook.{OrderBook}
use mockex.OrderBook.Events.{run, apply}
use mockex.Pipeline.ItchBook.{itch_session_of}
use mockex.Pipeline.Synced.{Sent, told, ignored, raw, AreClean, replay_itch-Same}
use mockex.Tests.Pipeline.{cfg, ticks}

abbrev sent : Message → Sent
sent m = told (record { locate = 0; tracking = 0; timestamp = 9 }) m []

-- A system event, an add of 5 at 1.00 under id 7, an add that is cut short, and the deletion.
abbrev come_and_go : List Sent
come_and_go =
    ignored (record { msg_type = 83; payload = 83 ∷ 0 ∷ []; len = 2 })
    ∷ sent (Message.add 7 66 5 0 10000)
    ∷ ignored (record { msg_type = 65; payload = 65 ∷ 0 ∷ []; len = 2 })
    ∷ sent (Message.delete 7)
    ∷ []

items_ok : All IsItem (map raw come_and_go)
unfolding encode
items_ok = (
  record { typed = refl; sized = refl; some_bytes = omega arith; fits = omega arith },
  (
    record { typed = refl; sized = refl; some_bytes = omega arith; fits = omega arith },
    (
      record { typed = refl; sized = refl; some_bytes = omega arith; fits = omega arith },
      (record { typed = refl; sized = refl; some_bytes = omega arith; fits = omega arith }, tt),
    ),
  ),
)

clean : AreClean (ItchParser.create 1048576 0) (OrderBook.create 0) come_and_go
unfolding ItchParser.create FlatHashMap.create FlatHashMap.round_up parse dispatch parse_add run
    apply OrderBook.create encode check_locate read_price OrderBook.add_order FlatHashMap.find
    FlatHashMap.insert FlatHashMap.insert_at_depth FlatHashMap.place FlatHashMap.probe
    FlatHashMap.home FlatHashMap.mix OrderBook.add_bid
clean = (
  refl,
  (
    (omega arith, times_absent _ 7 (λ i. omega arith), omega arith),
    (refl, (both _ _ refl refl, tt)),
  ),
)

replay_itch-Same_example :
    let parser = ItchParser.create 1048576 0 in
    let (s, p) = itch_session_of ticks cfg 1 1000 parser (map raw come_and_go) (0 ∷ []) in
    Same p.orders s.book.orders
replay_itch-Same_example =
    replay_itch-Same ticks cfg 1 1000 0 come_and_go (0 ∷ []) (omega arith) (omega arith) items_ok
      (End.short (omega arith)) clean
