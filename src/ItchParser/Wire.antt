-- ===== src/ItchParser/Wire.antt =====
-- The layout of the messages of Nasdaq TotalView-ITCH 5.0 that src/feed/itch_parser.cpp reads:
-- big-endian numbers one behind the other.
use native.Mathlib.Nat.{div-add-mod'}
use mockex.Prelude.{ℕ, ◌+◌, ◌*◌, ◌/◌, ◌%◌, ◌^◌, ◌≡◌, List, ◌∷◌}

abbrev pub be16 : ℕ → List ℕ → List ℕ
be16 x rest = x / 2 ^ 8 ∷ x % 2 ^ 8 ∷ rest

abbrev pub be32 : ℕ → List ℕ → List ℕ
be32 x rest = be16 (x / 2 ^ 16) (be16 (x % 2 ^ 16) rest)

abbrev pub be48 : ℕ → List ℕ → List ℕ
be48 x rest = be16 (x / 2 ^ 32) (be32 (x % 2 ^ 32) rest)

abbrev pub be64 : ℕ → List ℕ → List ℕ
be64 x rest = be32 (x / 2 ^ 32) (be32 (x % 2 ^ 32) rest)

-- Two parts of a number, put together.
pub whole : (k x : ℕ) → x / 2 ^ k * 2 ^ k + x % 2 ^ k ≡ x
whole k x = div-add-mod' x (2 ^ k)

-- What begins every message.
pub record Header : Type 0 where
  pub locate : ℕ
  pub tracking : ℕ
  pub timestamp : ℕ

-- The messages, with the fields that their layout has; texts are numbers here.
pub data Message : Type 0 where
  add : (order_id side shares stock price : ℕ) → Message
  add_mpid : (order_id side shares stock price attribution : ℕ) → Message
  executed : (order_id shares match_no : ℕ) → Message
  executed_price : (order_id shares match_no printable price : ℕ) → Message
  cancel : (order_id shares : ℕ) → Message
  delete : (order_id : ℕ) → Message
  replace : (order_id new_order_id shares price : ℕ) → Message
  trade : (order_id side shares stock price match_no : ℕ) → Message

-- `A`, `F`, `E`, `C`, `X`, `D`, `U`, `P`
abbrev pub type_of : Message → ℕ
type_of (add _ _ _ _ _) = 65
type_of (add_mpid _ _ _ _ _ _) = 70
type_of (executed _ _ _) = 69
type_of (executed_price _ _ _ _ _) = 67
type_of (cancel _ _) = 88
type_of (delete _) = 68
type_of (replace _ _ _ _) = 85
type_of (trade _ _ _ _ _ _) = 80

-- The bytes behind the header, with any bytes behind them.
abbrev pub body : Message → List ℕ → List ℕ
body (add order_id side shares stock price) rest =
    be64 order_id (side ∷ be32 shares (be64 stock (be32 price rest)))
body (add_mpid order_id side shares stock price attribution) rest =
    be64 order_id (side ∷ be32 shares (be64 stock (be32 price (be32 attribution rest))))
body (executed order_id shares match_no) rest = be64 order_id (be32 shares (be64 match_no rest))
body (executed_price order_id shares match_no printable price) rest =
    be64 order_id (be32 shares (be64 match_no (printable ∷ be32 price rest)))
body (cancel order_id shares) rest = be64 order_id (be32 shares rest)
body (delete order_id) rest = be64 order_id rest
body (replace order_id new_order_id shares price) rest =
    be64 order_id (be64 new_order_id (be32 shares (be32 price rest)))
body (trade order_id side shares stock price match_no) rest =
    be64 order_id (side ∷ be32 shares (be64 stock (be32 price (be64 match_no rest))))

unfoldable pub encode : Header → Message → List ℕ → List ℕ
encode h m rest = type_of m ∷ be16 h.locate (be16 h.tracking (be48 h.timestamp (body m rest)))
