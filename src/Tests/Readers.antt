-- ===== src/Tests/Readers.antt =====
-- The readers of src/feed on small files, and the latency table of src/common/latency_tracker.hpp.
use mockex.Prelude.{ℕ, ◌+◌, ◌%◌, ◌^◌, ◌≡◌, refl, arith, inl, List, [], ◌∷◌, length}
use mockex.Types.{clear}
use mockex.Parser.{ParsedMsg, parsed_clear}
use mockex.ReplayReader
use mockex.ReplayReader.{ReplayReader, RawMsg}
use mockex.ReplayReader.Bounds.{Finished, read_all-Finished}
use mockex.ReplayReader.Frames.{frames, gaps, read_all-frames}
use mockex.ItchReplayReader
use mockex.ItchReplayReader.{ItchRawMsg}
use mockex.ItchReplayReader.Records.{items, End, read_all-items}
use mockex.LatencyTracker
use mockex.LatencyTracker.{Label}
use mockex.LatencyTracker.Samples.{Span, record_spans, Keeps, durations, record_spans-create}

-- A clear without its fields, three bytes of payload.
abbrev raw : RawMsg
raw = record { type = clear; payload = 7 ∷ 8 ∷ 9 ∷ []; len = 3 }

abbrev small_reader : ReplayReader
small_reader = record ReplayReader.create { bytes = 4 ∷ 3 ∷ 0 ∷ 7 ∷ 8 ∷ 9 ∷ 4 ∷ []; size = 7 }

read_all-Finished_example : Finished small_reader (ReplayReader.read_all 8 small_reader)
read_all-Finished_example =
    read_all-Finished 8 small_reader (record { whole = refl; inside = omega arith }) (omega arith)

read_all-frames_example :
    let file = frames (raw ∷ []) (4 ∷ []) in
    let (last, read) =
      ReplayReader.read_all
        (length file + 1)
        (ReplayReader.open_file ReplayReader.create (ReplayReader.mapped file)).0 in
    (read ≡ raw ∷ []) × (last.msg_count ≡ 1 % 2 ^ 64) × (last.gap_count ≡ gaps (raw ∷ []) % 2 ^ 64)
read_all-frames_example =
    read_all-frames (raw ∷ []) (4 ∷ [])
      (record { typed = refl; sized = refl; fits = omega arith }, tt) (inl (omega arith))

abbrev feed : List ParsedMsg
feed =
    parsed_clear (record { seq_no = 1; ts_exchange = 0; instrument_id = 0 })
    ∷ parsed_clear (record { seq_no = 3; ts_exchange = 9; instrument_id = 0 })
    ∷ []

-- Two records, then an empty one, and a record behind it.
abbrev itch_messages : List ItchRawMsg
itch_messages =
    record { msg_type = 83; payload = 83 ∷ 1 ∷ []; len = 2 }
    ∷ record { msg_type = 68; payload = 68 ∷ []; len = 1 }
    ∷ []

abbrev itch_tail : List ℕ
itch_tail = 0 ∷ 0 ∷ 0 ∷ 1 ∷ 83 ∷ []

read_all-items_example :
    let file = items itch_messages itch_tail in
    let (last, read) =
      ItchReplayReader.read_all
        (length file + 1)
        (ItchReplayReader.open_file ItchReplayReader.create (ReplayReader.mapped file)).0 in
    (read ≡ itch_messages) × (last.msg_count ≡ 3 % 2 ^ 64)
read_all-items_example =
    read_all-items itch_messages itch_tail
      (
        record { typed = refl; sized = refl; some_bytes = omega arith; fits = omega arith },
        (record { typed = refl; sized = refl; some_bytes = omega arith; fits = omega arith }, tt),
      )
      (End.empty (omega arith) refl)

abbrev pub spans : List Span
spans =
    record { label = Label.risk; start_tsc = 10; end_tsc = 25 }
    ∷ record { label = Label.risk; start_tsc = 30; end_tsc = 30 }
    ∷ record { label = Label.gateway; start_tsc = 40; end_tsc = 41 }
    ∷ record { label = Label.risk; start_tsc = 50; end_tsc = 52 }
    ∷ []

risk_durations : durations Label.risk spans ≡ 15 ∷ 2 ∷ []
unfolding durations
risk_durations = refl

record_spans-create_example :
    Keeps ((record_spans LatencyTracker.create spans).bufs Label.risk) (durations Label.risk spans)
record_spans-create_example = record_spans-create Label.risk spans
