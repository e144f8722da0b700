-- ===== src/LatencyTracker.antt =====
-- src/common/latency_tracker.hpp: the latency samples of each stage, and the table of them that is
-- printed. A buffer is the list of its samples in use, so that `count` is its length. A tracker that
-- was moved from has null buffers, and takes no samples any more.
pub mod Samples
pub mod Casts
pub mod Summary
use mockex.Prelude.{ℕ, ◌-◌, ◌^◌, ◌&&◌, ◌==◌, if◌then◌else◌, ltb, leb, List, [], ◌∷◌, ◌++◌}
use mockex.Prelude.{Option, none, some, length, get_or}
use mockex.Types.{add64}
use mockex.Double.{Double}

pub data Label : Type 0 where
  md_ingress book_update strategy risk gateway tick_to_ack : Label

-- The values of the enum, and all of them in their order.
abbrev pub index_of : Label → ℕ
index_of md_ingress = 0
index_of book_update = 1
index_of strategy = 2
index_of risk = 3
index_of gateway = 4
index_of tick_to_ack = 5

abbrev pub labels : List Label
labels = md_ingress ∷ book_update ∷ strategy ∷ risk ∷ gateway ∷ tick_to_ack ∷ []

-- `kCap`
abbrev pub cap_samples : ℕ
cap_samples = 262144

pub record Buf : Type 0 where
  pub samples : List ℕ
  pub total : ℕ

pub record LatencyTracker : Type 0 where
  pub bufs : Label → Buf
  pub tsc_freq : ℕ

abbrev pub empty_buf : Buf
empty_buf = record { samples = []; total = 0 }

-- The constructor.
abbrev pub create : LatencyTracker
create = record { bufs = λ _. empty_buf; tsc_freq = 0 }

-- `bufs_[label] = b`
abbrev pub set_buf : (Label → Buf) → Label → Buf → Label → Buf
set_buf bufs label b l = if index_of l == index_of label then b else bufs l

-- What is moved to, and what is left of the source, which keeps its frequency.
abbrev pub move_from : LatencyTracker → LatencyTracker × LatencyTracker
move_from o = (o, record o { bufs = λ _. empty_buf })

-- One sample in a buffer; a full one counts it only.
unfoldable pub push_sample : Buf → ℕ → Buf
push_sample b cycles = record {
  samples = if ltb (length b.samples) cap_samples then b.samples ++ (cycles ∷ []) else b.samples;
  total = add64 b.total 1;
}

unfoldable pub record_raw : LatencyTracker → Label → ℕ → LatencyTracker
unfolding push_sample
record_raw t label cycles =
    if cycles == 0
    then t
    else record t { bufs = set_buf t.bufs label (push_sample (t.bufs label) cycles) }

-- `record`, of two readings of the clock
unfoldable pub record_span : LatencyTracker → Label → ℕ → ℕ → LatencyTracker
unfolding record_raw
record_span t label start_tsc end_tsc =
    if leb end_tsc start_tsc then t else record_raw t label (end_tsc - start_tsc)

abbrev pub set_tsc_freq : LatencyTracker → ℕ → LatencyTracker
set_tsc_freq t freq = record t { tsc_freq = freq }

-- A line of the table: the number of samples that came, and times in nanoseconds.
pub record Row : Type 0 where
  pub label : Label
  pub total : ℕ
  pub least : ℕ
  pub p50 : ℕ
  pub p90 : ℕ
  pub p99 : ℕ
  pub p999 : ℕ
  pub greatest : ℕ

-- The arithmetic on doubles is the processor's.
module _ {D : Type 0} (d : Double D) where
  -- `static_cast<double>(c) * 1e9 / static_cast<double>(freq)`
  abbrev pub nanoseconds : ℕ → ℕ → D
  nanoseconds freq c = d.div (d.mul (d.of_nat c) (d.of_nat (10 ^ 9))) (d.of_nat freq)

  -- `ns`
  abbrev pub ns : ℕ → ℕ → ℕ
  ns freq c = d.to_u64 (nanoseconds freq c)

  -- `static_cast<size_t>(p / 100.0 * (b.count - 1))`, with `p` in tenths
  abbrev pub index : ℕ → ℕ → ℕ
  index p last = d.to_u64 (d.mul (d.div (d.tenths p) (d.of_nat 100)) (d.of_nat last))

-- `std::sort` is the library's.
module _ {D : Type 0} (d : Double D) (sort : List ℕ → List ℕ) where
  -- `pct` of a sorted buffer
  abbrev pub pct : ℕ → List ℕ → ℕ → ℕ
  pct freq sorted p = ns d freq (get_or sorted (index d p (length sorted - 1)) 0)

  unfoldable pub row : ℕ → Label → Buf → Row
  row freq label b =
      let sorted = sort b.samples in
      record {
        label = label;
        total = b.total;
        least = ns d freq (get_or sorted 0 0);
        p50 = pct freq sorted 500;
        p90 = pct freq sorted 900;
        p99 = pct freq sorted 990;
        p999 = pct freq sorted 999;
        greatest = ns d freq (get_or sorted (length sorted - 1) 0);
      }

  -- The lines for some labels; a stage with no samples has none.
  unfoldable pub rows : LatencyTracker → List Label → List Row
  unfolding row
  rows t [] = []
  rows t (label ∷ rest) =
      let b = t.bufs label in
      if (length b.samples == 0) && (b.total == 0)
      then rows t rest
      else row t.tsc_freq label b ∷ rows t rest

  -- `print_summary`, which sorts the buffers where they are.
  unfoldable pub print_summary : LatencyTracker → LatencyTracker × List Row
  unfolding rows
  print_summary t = (
    record t { bufs = λ l. record (t.bufs l) { samples = sort (t.bufs l).samples } },
    rows t labels,
  )
