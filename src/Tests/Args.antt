-- ===== src/Tests/Args.antt =====
-- The command line of src/app/main_replay.cpp.
use Prim.Native.String.{String, [], ◌∷◌}
use mockex.Prelude.{ℕ, zero, suc, ◌≡◌, refl, ap, arith, true}
use mockex.Prelude.Int.{pos}
use mockex.Pipeline.Options.{ReplayOptions, parse_args, print_args, defaults}
use mockex.Pipeline.Options.{parse_args-print_args}

-- A tally in place of decimal digits: the theorem asks only that what is shown can be read.
show : ℕ → String
show zero = []
show (suc n) = "1" ∷ show n

read : String → ℕ
read [] = 0
read (c ∷ s) = suc (read s)

read-show : (n : ℕ) → read (show n) ≡ n
unfolding read show
read-show zero = refl
read-show (suc n) = ap suc (read-show n)

abbrev options : ReplayOptions
options = record {
  max_msgs = 50;
  verbose = true;
  use_itch = true;
  locate_filter = 9;
  strat_cfg = record {
    base_spread_ticks = 3;
    lot_size = 40;
    max_position = pos 700;
    skew_of = λ z. z;
    quote_offset_ticks = 1;
  };
}

parse_args-print_args_example :
    parse_args read
      (λ s. pos (read s))
      (defaults (λ z. z))
      (print_args read (λ s. pos (read s)) show options)
    ≡ options
parse_args-print_args_example =
    parse_args-print_args read (λ s. pos (read s)) show options
      (record { strtoull-show = λ n h. read-show n; atoi-show = λ n h. ap pos (read-show n) })
      (record {
        few = omega arith;
        spread = omega arith;
        lot = omega arith;
        bounded = (refl, omega arith);
        locate = omega arith;
      })
      refl
