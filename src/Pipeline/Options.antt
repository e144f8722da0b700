-- ===== src/Pipeline/Options.antt =====
-- The command line of src/app/main_replay.cpp. `strtoull` and `atoi` are parameters, and so is the
-- product with the default skew factor.
use Prim.Native.String.{String}
use text.Mathlib.Text.{◌==◌ as str_eq}
use mockex.Prelude.{ℕ, ◌-◌, ◌^◌, ◌<◌, ◌≡◌, refl, Bool, true, false, List, [], ◌∷◌, if◌then◌else◌}
use mockex.Prelude.{Option, none, some, arith}
use mockex.Prelude.Int.{ℤ, pos, negsuc, residue, pos_part, neg_part}
use mockex.MarketMaker.{StrategyConfig}

pub record ReplayOptions : Type 0 where
  pub max_msgs : ℕ
  pub verbose : Bool
  pub use_itch : Bool
  pub locate_filter : ℕ
  pub strat_cfg : StrategyConfig

-- The values before the loop over the arguments.
abbrev pub defaults : (ℤ → ℤ) → ReplayOptions
defaults skew_of = record {
  max_msgs = 2 ^ 64 - 1;
  verbose = false;
  use_itch = false;
  locate_filter = 0;
  strat_cfg = record {
    base_spread_ticks = 2;
    lot_size = 100;
    max_position = pos 1000;
    skew_of = skew_of;
    quote_offset_ticks = 1;
  };
}

module _ (strtoull : String → ℕ) (atoi : String → ℤ) where
  -- An option with a value, which `argv[++i]` reads; `none` if the argument is no such option.
  unfoldable pub valued : ReplayOptions → String → String → Option ReplayOptions
  valued o a v =
      if str_eq a "--max-msgs"
      then some (record o { max_msgs = strtoull v })
      else (if str_eq a "--spread"
          then some (record o {
            strat_cfg = record o.strat_cfg { base_spread_ticks = residue (2 ^ 32) (atoi v) };
          })
          else (if str_eq a "--lot-size"
              then some (record o {
                strat_cfg = record o.strat_cfg { lot_size = residue (2 ^ 32) (atoi v) };
              })
              else (if str_eq a "--max-pos"
                  then some (record o { strat_cfg = record o.strat_cfg { max_position = atoi v } })
                  else (if str_eq a "--format"
                      then some (record o { use_itch = str_eq v "itch" })
                      else (if str_eq a "--locate"
                          then some (record o { locate_filter = residue (2 ^ 16) (atoi v) })
                          else none)))))

  -- An option with no value; anything else is passed over.
  abbrev pub plain : ReplayOptions → String → ReplayOptions
  plain o a = if str_eq a "--verbose" then record o { verbose = true } else o

  -- The loop over the arguments from `argv[2]` on.
  unfoldable pub parse_args : ReplayOptions → List String → ReplayOptions
  unfolding valued
  parse_args o [] = o
  parse_args o (a ∷ []) = plain o a
  parse_args o (a ∷ v ∷ rest) = elim (valued o a v) [
    | some o' ↦ parse_args o' rest
    | none ↦ parse_args (plain o a) (v ∷ rest)
  ]

  -- The arguments that set every option.
  abbrev pub print_args : (ℕ → String) → ReplayOptions → List String
  print_args show o =
      "--max-msgs"
      ∷ show o.max_msgs
      ∷ "--spread"
      ∷ show o.strat_cfg.base_spread_ticks
      ∷ "--lot-size"
      ∷ show o.strat_cfg.lot_size
      ∷ "--max-pos"
      ∷ show (pos_part o.strat_cfg.max_position)
      ∷ "--format"
      ∷ (if o.use_itch then "itch" else "native")
      ∷ "--locate"
      ∷ show o.locate_filter
      ∷ (if o.verbose then "--verbose" ∷ [] else [])

  -- What `strtoull` and `atoi` promise of printed numbers in their ranges.
  pub record Reads (show : ℕ → String) : Type 0 where
    pub strtoull-show : (n : ℕ) → n < 2 ^ 64 → strtoull (show n) ≡ n
    pub atoi-show : (n : ℕ) → n < 2 ^ 31 → atoi (show n) ≡ pos n

  -- Values in the ranges of the options; those that `atoi` reads are nonnegative numbers of 31 bits.
  pub record IsPrintable (o : ReplayOptions) : Type 0 where
    pub few : o.max_msgs < 2 ^ 64
    pub spread : o.strat_cfg.base_spread_ticks < 2 ^ 31
    pub lot : o.strat_cfg.lot_size < 2 ^ 31
    pub bounded :
        (neg_part o.strat_cfg.max_position ≡ 0) × (pos_part o.strat_cfg.max_position < 2 ^ 31)
    pub locate : o.locate_filter < 2 ^ 16

  module _ (show : ℕ → String) (r : Reads show) (n : ℕ) where
    residue32-atoi_show : n < 2 ^ 31 → residue (2 ^ 32) (atoi (show n)) ≡ n
    residue32-atoi_show h = rw (r.atoi-show n h) (omega arith)

    residue16-atoi_show : n < 2 ^ 16 → residue (2 ^ 16) (atoi (show n)) ≡ n
    residue16-atoi_show h = rw (r.atoi-show n (omega arith)) (omega arith)

  atoi-pos_part :
      (show : ℕ → String) (z : ℤ)
      → Reads show
      → (neg_part z ≡ 0) × (pos_part z < 2 ^ 31)
      → atoi (show (pos_part z)) ≡ z
  atoi-pos_part show (pos n) r h = r.atoi-show n h.1
  atoi-pos_part show (negsuc n) r h = absurd (omega (arith, h.0))

  format_read : (b : Bool) → str_eq (if b then "itch" else "native") "itch" ≡ b
  format_read true = refl
  format_read false = refl

  -- The options that the values give, `--verbose` aside.
  abbrev given : (ℤ → ℤ) → ℕ → ℕ → ℕ → ℤ → Bool → ℕ → ReplayOptions
  given skew_of max_msgs spread lot max_pos use_itch locate = record {
    max_msgs = max_msgs;
    verbose = false;
    use_itch = use_itch;
    locate_filter = locate;
    strat_cfg = record {
      base_spread_ticks = spread;
      lot_size = lot;
      max_position = max_pos;
      skew_of = skew_of;
      quote_offset_ticks = 1;
    };
  }

  verbose_read :
      (o : ReplayOptions) (b : Bool)
      → parse_args (record o { verbose = false }) (if b then "--verbose" ∷ [] else [])
        ≡ record o { verbose = b }
  unfolding parse_args
  verbose_read o true = refl
  verbose_read o false = refl

  -- Where the library functions read back printed numbers, options with values in their ranges,
  -- written out as arguments, are what the loop gives when it starts from the default values with the
  -- same skew factor; the quote offset, which no option sets, keeps its default.
  pub parse_args-print_args :
      (show : ℕ → String) (o : ReplayOptions)
      → Reads show
      → IsPrintable o
      → o.strat_cfg.quote_offset_ticks ≡ 1
      → parse_args (defaults o.strat_cfg.skew_of) (print_args show o) ≡ o
  unfolding parse_args
  parse_args-print_args show o r p q =
      let cfg = o.strat_cfg in
      let read : parse_args
            (given cfg.skew_of (strtoull (show o.max_msgs))
              (residue (2 ^ 32) (atoi (show cfg.base_spread_ticks)))
              (residue (2 ^ 32) (atoi (show cfg.lot_size)))
              (atoi (show (pos_part cfg.max_position)))
              (str_eq (if o.use_itch then "itch" else "native") "itch")
              (residue (2 ^ 16) (atoi (show o.locate_filter))))
            (if o.verbose then "--verbose" ∷ [] else [])
          ≡ o =
        rw
          (
            r.strtoull-show o.max_msgs p.few,
            residue32-atoi_show show r cfg.base_spread_ticks p.spread,
            residue32-atoi_show show r cfg.lot_size p.lot,
            atoi-pos_part show cfg.max_position r p.bounded,
            format_read o.use_itch,
            residue16-atoi_show show r o.locate_filter p.locate,
            ← q,
          )
          (verbose_read o o.verbose) in
      read
