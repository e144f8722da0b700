-- ===== src/ItchReplayReader.antt =====
-- src/feed/itch_replay_reader.hpp and src/feed/itch_replay_reader.cpp: the messages of an ITCH feed,
-- with the system calls of `open` as an argument, as for the native feed.
pub mod Records
use mockex.Prelude.{ℕ, zero, suc, ◌+◌, Bool, true, false, ltb, if◌then◌else◌, List, [], ◌∷◌}
use mockex.Prelude.{Option, none, some, length, drop, take, get_or}
use mockex.Types.{add64}
use mockex.ItchParser.{read_be16}
use mockex.ReplayReader.{FileStatus, no_file, no_stat, no_map, mapped}

pub record ItchRawMsg : Type 0 where
  pub msg_type : ℕ
  pub payload : List ℕ
  pub len : ℕ

pub record ItchReplayReader : Type 0 where
  pub bytes : List ℕ
  pub pos : ℕ
  pub size : ℕ
  pub msg_count : ℕ

-- The constructor.
abbrev pub create : ItchReplayReader
create = record { bytes = []; pos = 0; size = 0; msg_count = 0 }

unfoldable pub open_file : ItchReplayReader → FileStatus → ItchReplayReader × Bool
open_file r no_file = (r, false)
open_file r no_stat = (r, false)
open_file r (no_map size) = (record r { bytes = []; size = size }, false)
open_file r (mapped bytes) =
    (record { bytes = bytes; pos = 0; size = length bytes; msg_count = 0 }, true)

abbrev pub close : ItchReplayReader → ItchReplayReader
close r = record r { bytes = []; size = 0; pos = 0 }

unfoldable pub next : ItchReplayReader → ItchReplayReader × Option ItchRawMsg
next r =
    let payload_len = read_be16 (drop r.pos r.bytes) 0 in
    let payload = take payload_len (drop (r.pos + 2) r.bytes) in
    let moved = record r { pos = r.pos + (2 + payload_len); msg_count = add64 r.msg_count 1 } in
    if ltb r.size (r.pos + 2)
    then (r, none)
    else (if ltb r.size (r.pos + 2 + payload_len)
        then (r, none)
        else (if ltb payload_len 1 then (moved, none) else (
          moved,
          some (record { msg_type = get_or payload 0 0; payload = payload; len = payload_len }),
        )))

-- One turn of the loop below, after `next`, given the turns that follow.
abbrev pub collect :
    (ItchReplayReader → ItchReplayReader × List ItchRawMsg)
    → ItchReplayReader × Option ItchRawMsg
    → ItchReplayReader × List ItchRawMsg
collect rest (r, none) = (r, [])
collect rest (r, some m) = let (last, ms) = rest r in (last, m ∷ ms)

-- `while (auto raw = reader.next())`, which collects the messages.
unfoldable pub read_all : ℕ → ItchReplayReader → ItchReplayReader × List ItchRawMsg
read_all zero r = (r, [])
read_all (suc fuel) r = collect (read_all fuel) (next r)
