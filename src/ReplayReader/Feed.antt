-- ===== src/ReplayReader/Feed.antt =====
-- src/feed/replay_reader.cpp and src/feed/parser.cpp together: a native feed, written and parsed.
use mockex.Prelude.{ℕ, ◌+◌, ◌≡◌, refl, ap, ap₂, ◌∙◌, arith, List, [], ◌∷◌, All, length}
use mathlib.Core.List.{map}
use mockex.Parser.{ParsedMsg, parsed_add, parsed_modify, parsed_cancel, parsed_trade, parsed_clear}
use mockex.Parser.{parse, parse_error}
use mockex.Parser.RoundTrip.{encode, type_of, IsEncodable, parse-encode}
use mockex.ReplayReader.{RawMsg, read_all, open_file, create, mapped}
use mockex.ReplayReader.Frames.{frames, IsFramed, IsCut, read_all-frames}

-- A message in the wire format.
abbrev pub raw_of : ParsedMsg → RawMsg
raw_of m = record { type = type_of m; payload = encode m []; len = length (encode m []) }

raw_of-IsFramed : (m : ParsedMsg) → IsEncodable m → IsFramed (raw_of m)
unfolding encode type_of
raw_of-IsFramed (parsed_add m) h = record { typed = refl; sized = refl; fits = omega arith }
raw_of-IsFramed (parsed_modify m) h = record { typed = refl; sized = refl; fits = omega arith }
raw_of-IsFramed (parsed_cancel m) h = record { typed = refl; sized = refl; fits = omega arith }
raw_of-IsFramed (parsed_trade m) h = record { typed = refl; sized = refl; fits = omega arith }
raw_of-IsFramed (parsed_clear m) h = record { typed = refl; sized = refl; fits = omega arith }
raw_of-IsFramed (parse_error e) h = absurd (omega arith)

All-raw_of : (ms : List ParsedMsg) → All IsEncodable ms → All IsFramed (map raw_of ms)
All-raw_of [] a = tt
All-raw_of (m ∷ ms) a = (raw_of-IsFramed m a.0, All-raw_of ms a.1)

-- `Parser::parse(raw->type, raw->data, raw->length)`
abbrev pub parse_raw : RawMsg → ParsedMsg
parse_raw raw = parse raw.type raw.payload

parse-raw_of : (ms : List ParsedMsg) → All IsEncodable ms → map parse_raw (map raw_of ms) ≡ ms
parse-raw_of [] a = refl
parse-raw_of (m ∷ ms) a = ap₂ (λ x xs. x ∷ xs) (parse-encode m [] a.0) (parse-raw_of ms a.1)

-- Any sequence of messages whose fields fit their widths and pass the checks of the parser, written
-- to a file, with an end that is no whole frame, is what reading the file to its end and parsing
-- each message gives.
pub parse-feed :
    (ms : List ParsedMsg) (tail : List ℕ)
    → All IsEncodable ms
    → IsCut tail
    → let file = frames (map raw_of ms) tail in
      map parse_raw (read_all (length file + 1) (open_file create (mapped file)).0).1 ≡ ms
parse-feed ms tail a cut =
    ap (map parse_raw) (read_all-frames (map raw_of ms) tail (All-raw_of ms a) cut).0
    ∙ parse-raw_of ms a
