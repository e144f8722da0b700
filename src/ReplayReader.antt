-- ===== src/ReplayReader.antt =====
-- src/feed/replay_reader.hpp and src/feed/replay_reader.cpp: the messages of a native feed, one after
-- the other. What the operating system does in `open` is an argument; the mapped file is the list of
-- its bytes, empty where `data_` is null, and a pointer into it with a length is the list from there.
pub mod Bounds
pub mod Frames
pub mod Feed
use mockex.Prelude.{
  ℕ, zero, suc, ◌∷◌, ◌+◌, Bool, true, false, ◌&&◌, not, ltb, leb, ◌==◌, if◌then◌else◌, List, [],
}
use mockex.Prelude.{Option, none, some, length, drop, take, get_or}
use mockex.Types.{MsgType, add_order, modify_order, cancel_order, trade, clear, unknown, add64}
use mockex.Types.{wire_header_size}
use mockex.Parser.{read_le}

pub record RawMsg : Type 0 where
  pub type : MsgType
  pub payload : List ℕ
  pub len : ℕ

pub record ReplayReader : Type 0 where
  pub bytes : List ℕ
  pub pos : ℕ
  pub size : ℕ
  pub last_seq_no : ℕ
  pub msg_count : ℕ
  pub gap_count : ℕ
  pub has_prev_seq : Bool

-- The constructor.
abbrev pub create : ReplayReader
create = record {
  bytes = [];
  pos = 0;
  size = 0;
  last_seq_no = 0;
  msg_count = 0;
  gap_count = 0;
  has_prev_seq = false;
}

-- How `::open`, `fstat` and `mmap` end: the first two fail, `mmap` fails on a file of some size, or
-- the file is there with its bytes. (An empty file is not mapped.)
pub data FileStatus : Type 0 where
  no_file no_stat : FileStatus
  no_map : ℕ → FileStatus
  mapped : List ℕ → FileStatus

unfoldable pub open_file : ReplayReader → FileStatus → ReplayReader × Bool
open_file r no_file = (r, false)
open_file r no_stat = (r, false)
open_file r (no_map size) = (record r { bytes = []; size = size }, false)
open_file r (mapped bytes) = (
  record {
    bytes = bytes;
    pos = 0;
    size = length bytes;
    last_seq_no = 0;
    msg_count = 0;
    gap_count = 0;
    has_prev_seq = false;
  },
  true,
)

abbrev pub close : ReplayReader → ReplayReader
close r = record r { bytes = []; size = 0; pos = 0 }

-- `static_cast<MsgType>`
abbrev pub to_msg_type : ℕ → MsgType
to_msg_type n =
    if n == 0
    then add_order
    else (if n == 1
        then modify_order
        else (if n == 2
            then cancel_order
            else (if n == 3 then trade else (if n == 4 then clear else unknown n))))

-- `seq`: the first eight bytes of a payload that has them.
unfoldable pub seq_of : List ℕ → ℕ → ℕ
seq_of payload payload_len = if leb 8 payload_len then read_le 8 payload else 0

-- `has_prev_seq_ && seq != last_seq_no_ + 1`
abbrev pub is_gap : ReplayReader → ℕ → Bool
is_gap r seq = r.has_prev_seq && not (seq == add64 r.last_seq_no 1)

-- The counters after a message.
unfoldable pub account : ReplayReader → ℕ → ReplayReader
account r seq = record r {
  msg_count = add64 r.msg_count 1;
  gap_count = if is_gap r seq then add64 r.gap_count 1 else r.gap_count;
  last_seq_no = seq;
  has_prev_seq = true;
}

-- Each way through the body of the loop returns, so it runs at most once.
unfoldable pub next : ReplayReader → ReplayReader × Option RawMsg
unfolding seq_of account
next r =
    let hdr = drop r.pos r.bytes in
    let payload_len = read_le 2 (drop 1 hdr) in
    let total = wire_header_size + payload_len in
    let payload = take payload_len (drop (r.pos + wire_header_size) r.bytes) in
    if leb (r.pos + wire_header_size) r.size
    then (if ltb r.size (r.pos + total) then (r, none) else (
      record (account r (seq_of payload payload_len)) { pos = r.pos + total },
      some (record { type = to_msg_type (get_or hdr 0 0); payload = payload; len = payload_len }),
    ))
    else (r, none)

-- One turn of the loop below, after `next`, given the turns that follow.
abbrev pub collect :
    (ReplayReader → ReplayReader × List RawMsg)
    → ReplayReader × Option RawMsg
    → ReplayReader × List RawMsg
collect rest (r, none) = (r, [])
collect rest (r, some m) = let (last, ms) = rest r in (last, m ∷ ms)

-- `while (auto raw = reader.next())`, which collects the messages.
unfoldable pub read_all : ℕ → ReplayReader → ReplayReader × List RawMsg
read_all zero r = (r, [])
read_all (suc fuel) r = collect (read_all fuel) (next r)
