-- ===== src/ItchParser/Sequence.antt =====
-- The sequence numbers and the counters of src/feed/itch_parser.cpp.
use mockex.Prelude.{ℕ, ◌+◌, ◌≡◌, ◌≢◌, refl, ◌||◌, ◌==◌, List}
use mockex.Prelude.{Bool-cases, Option-cases, inl, inr, arith}
use mockex.Types.{Side, bid, OrderState, add64}
use mockex.FlatHashMap
use mockex.FlatHashMap.{FlatHashMap}
use mockex.ItchParser.{ItchParser, ItchParsed, add, modify, cancel, trade, skipped, parse, dispatch}
use mockex.ItchParser.{parse_add, parse_executed, parse_executed_price, parse_cancel, parse_delete}
use mockex.ItchParser.{
  parse_replace, parse_trade, skip, miss, traded, cancelled, advance, is_refused,
}
use mockex.ItchParser.{
  ItchType, to_type, add_order, add_order_mpid, executed, executed_price, replace,
}
use mockex.ItchParser.{order_cancel, order_delete, non_cross, other}
use mockex.ItchParser.{read_be32, read_be64, read_price}

-- The message says which number it has; the table has no say in it.
abbrev pub IsNumbered : ItchParsed → ℕ → Type 0
IsNumbered (add m) n = m.seq_no ≡ n
IsNumbered (modify m) n = m.seq_no ≡ n
IsNumbered (cancel m) n = m.seq_no ≡ n
IsNumbered (trade m) n = m.seq_no ≡ n
IsNumbered skipped n = Unit

-- An add that is passed on has a quantity and a price.
abbrev pub IsPositive : ItchParsed → Type 0
IsPositive (add m) = (m.qty ≢ 0) × (m.price_ticks ≢ 0)
IsPositive (modify m) = Unit
IsPositive (cancel m) = Unit
IsPositive (trade m) = Unit
IsPositive skipped = Unit

-- The messages that were passed on, of each kind.
abbrev pub passed_on : ItchParser → ℕ
passed_on s = s.stats.adds + s.stats.modifies + s.stats.cancels + s.stats.trades

-- A parse that skips, and one that passes a message on.
pub record Skipped (s s' : ItchParser) : Type 0 where
  pub same_seq : s'.seq_no ≡ s.seq_no
  pub same_orders : s'.orders ≡ s.orders
  pub counted : s'.stats.skipped ≡ add64 s.stats.skipped 1
  pub none_passed : passed_on s' ≡ passed_on s

pub record Passed (s : ItchParser) (r : ItchParser × ItchParsed) : Type 0 where
  pub next_seq : r.0.seq_no ≡ add64 s.seq_no 1
  pub numbered : IsNumbered r.1 r.0.seq_no
  pub positive : IsPositive r.1
  pub same_skipped : r.0.stats.skipped ≡ s.stats.skipped

pub record Sequenced (s : ItchParser) (r : ItchParser × ItchParsed) : Type 0 where
  pub quiet : r.1 ≡ skipped → Skipped s r.0
  pub loud : r.1 ≢ skipped → Passed s r

skip-Sequenced : (s : ItchParser) → Sequenced s (skip s)
skip-Sequenced s = record {
  quiet = λ h. record { same_seq = refl; same_orders = refl; counted = refl; none_passed = refl };
  loud = λ h. absurd (h refl);
}

miss-Sequenced : (s : ItchParser) → Sequenced s (miss s)
miss-Sequenced s = record {
  quiet = λ h. record { same_seq = refl; same_orders = refl; counted = refl; none_passed = refl };
  loud = λ h. absurd (h refl);
}

traded-Sequenced :
    (s : ItchParser) (orders : FlatHashMap OrderState) (bytes : List ℕ) (id price qty : ℕ)
    (side : Side)
    → Sequenced s (traded (advance s orders) bytes id price qty side)
traded-Sequenced s orders bytes id price qty side = record {
  quiet = λ h. cc;
  loud = λ h. record { next_seq = refl; numbered = refl; positive = tt; same_skipped = refl };
}

cancelled-Sequenced :
    (s : ItchParser) (orders : FlatHashMap OrderState) (bytes : List ℕ) (id qty : ℕ)
    → Sequenced s (cancelled (advance s orders) bytes id qty)
cancelled-Sequenced s orders bytes id qty = record {
  quiet = λ h. cc;
  loud = λ h. record { next_seq = refl; numbered = refl; positive = tt; same_skipped = refl };
}

parse_executed-Sequenced : (s : ItchParser) (bytes : List ℕ) → Sequenced s (parse_executed s bytes)
unfolding parse_executed
parse_executed-Sequenced s bytes = elim (Bool-cases (is_refused s bytes 31)) [
  | inl refused ↦ rw refused (skip-Sequenced s)
  | inr ok ↦ elim (Option-cases (FlatHashMap.find s.orders (read_be64 bytes 11))) [
    | inl gone ↦ rw (ok, parse_executed, gone) (miss-Sequenced s)
    | inr (i, at) ↦ rw (ok, parse_executed, at) (traded-Sequenced s _ bytes _ _ _ _)
  ]
]

-- The same for a trade whose order the table does not have.
missed-Sequenced :
    (s : ItchParser) (bytes : List ℕ) (id price qty : ℕ) (side : Side)
    → Sequenced s (
        traded
          (advance
            (record s { stats = record s.stats { lookup_misses = add64 s.stats.lookup_misses 1 } })
            s.orders)
          bytes
          id
          price
          qty
          side)
missed-Sequenced s bytes id price qty side = record {
  quiet = λ h. cc;
  loud = λ h. record { next_seq = refl; numbered = refl; positive = tt; same_skipped = refl };
}

parse_executed_price-Sequenced :
    (s : ItchParser) (bytes : List ℕ) → Sequenced s (parse_executed_price s bytes)
unfolding parse_executed_price
parse_executed_price-Sequenced s bytes = elim (Bool-cases (is_refused s bytes 36)) [
  | inl refused ↦ rw refused (skip-Sequenced s)
  | inr ok ↦ elim (Option-cases (FlatHashMap.find s.orders (read_be64 bytes 11))) [
    | inl gone ↦ rw (ok, parse_executed_price, gone) (missed-Sequenced s bytes _ _ _ bid)
    | inr (i, at) ↦ rw (ok, parse_executed_price, at) (traded-Sequenced s _ bytes _ _ _ _)
  ]
]

parse_cancel-Sequenced : (s : ItchParser) (bytes : List ℕ) → Sequenced s (parse_cancel s bytes)
unfolding parse_cancel
parse_cancel-Sequenced s bytes = elim (Bool-cases (is_refused s bytes 24)) [
  | inl refused ↦ rw refused (skip-Sequenced s)
  | inr ok ↦ elim (Option-cases (FlatHashMap.find s.orders (read_be64 bytes 11))) [
    | inl gone ↦ rw (ok, parse_cancel, gone) (miss-Sequenced s)
    | inr (i, at) ↦ rw (ok, parse_cancel, at) (cancelled-Sequenced s _ bytes _ _)
  ]
]

parse_delete-Sequenced : (s : ItchParser) (bytes : List ℕ) → Sequenced s (parse_delete s bytes)
unfolding parse_delete
parse_delete-Sequenced s bytes = elim (Bool-cases (is_refused s bytes 19)) [
  | inl refused ↦ rw refused (skip-Sequenced s)
  | inr ok ↦ elim (Option-cases (FlatHashMap.find s.orders (read_be64 bytes 11))) [
    | inl gone ↦ rw (ok, parse_delete, gone) (miss-Sequenced s)
    | inr (i, at) ↦ rw (ok, parse_delete, at) (cancelled-Sequenced s _ bytes _ _)
  ]
]

parse_replace-Sequenced : (s : ItchParser) (bytes : List ℕ) → Sequenced s (parse_replace s bytes)
unfolding parse_replace
parse_replace-Sequenced s bytes = elim (Bool-cases (is_refused s bytes 35)) [
  | inl refused ↦ rw refused (skip-Sequenced s)
  | inr ok ↦ elim (Option-cases (FlatHashMap.find s.orders (read_be64 bytes 11))) [
    | inl gone ↦ rw (ok, parse_replace, gone) (miss-Sequenced s)
    | inr (i, at) ↦
        rw (ok, parse_replace, at)
          (record {
            quiet = λ h. cc;
            loud = λ h. record {
              next_seq = refl;
              numbered = refl;
              positive = tt;
              same_skipped = refl;
            };
          })
  ]
]

parse_trade-Sequenced : (s : ItchParser) (bytes : List ℕ) → Sequenced s (parse_trade s bytes)
unfolding parse_trade
parse_trade-Sequenced s bytes =
    elim (Bool-cases
      (is_refused s bytes 44 || (read_be32 bytes 20 == 0) || (read_price bytes 32 == 0))) [
        | inl refused ↦ rw refused (skip-Sequenced s)
        | inr ok ↦ rw (ok, parse_trade) (traded-Sequenced s _ bytes _ _ _ _)
      ]

parse_add-Sequenced :
    (size : ℕ) (s : ItchParser) (bytes : List ℕ) → Sequenced s (parse_add size s bytes)
unfolding parse_add
parse_add-Sequenced size s bytes =
    let cond = is_refused s bytes size in
    let no_qty = read_be32 bytes 20 == 0 in
    let no_price = read_price bytes 32 == 0 in
    elim (Bool-cases (cond || no_qty || no_price)) [
      | inl refused ↦ rw refused (skip-Sequenced s)
      | inr ok ↦
          rw (ok, parse_add)
            (record {
              quiet = λ h. cc;
              loud = λ h. record {
                next_seq = refl;
                numbered = refl;
                positive = ground (arith, ok);
                same_skipped = refl;
              };
            })
    ]

-- Every message, of any type and any length, is either skipped, which leaves the table of orders and
-- the sequence number and counts one skip and no message, or passed on under the next sequence
-- number, modulo 2 ^ 64, which counts no skip; an add that is passed on has a nonzero quantity and a
-- nonzero price.
pub parse-Sequenced :
    (msg_type : ℕ) (s : ItchParser) (bytes : List ℕ) → Sequenced s (parse msg_type s bytes)
unfolding parse dispatch
parse-Sequenced msg_type s bytes = go (to_type msg_type)
  where
    go : (t : ItchType) → Sequenced s (dispatch t s bytes)
    go add_order = parse_add-Sequenced 36 s bytes
    go add_order_mpid = parse_add-Sequenced 40 s bytes
    go executed = parse_executed-Sequenced s bytes
    go executed_price = parse_executed_price-Sequenced s bytes
    go order_cancel = parse_cancel-Sequenced s bytes
    go order_delete = parse_delete-Sequenced s bytes
    go replace = parse_replace-Sequenced s bytes
    go non_cross = parse_trade-Sequenced s bytes
    go other = skip-Sequenced s
