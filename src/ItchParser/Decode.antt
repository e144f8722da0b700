-- ===== src/ItchParser/Decode.antt =====
-- src/feed/itch_parser.cpp on the messages of the layout: each is read as what it means.
use mockex.Prelude.{ℕ, ◌+◌, ◌*◌, ◌/◌, ◌%◌, ◌^◌, ◌≡◌, refl, arith, ap₂, ◌∙◌}
use mockex.Prelude.{List, [], ◌∷◌, Bool, true, false, not, ◌&&◌, ◌||◌, ltb, if◌then◌else◌}
use mockex.Prelude.{length, Bool-cases, inl, inr, ltb_of_le}
use mockex.ItchParser.{ItchParser, skip, is_refused, check_locate, parse, dispatch, parse_add}
use mockex.ItchParser.{
  parse_executed, parse_executed_price, parse_cancel, parse_delete, parse_replace,
}
use mockex.ItchParser.{parse_trade, read_be32, read_be64, read_ts6, read_price}
use mockex.ItchParser.Wire.{Header, Message, encode, type_of, be32, be48, be64, whole}
use mockex.ItchParser.Meaning.{ticks, side_of, passes, is_long, meaning, add_of, executed_of}
use mockex.ItchParser.Meaning.{executed_price_of, cancelled_of, delete_of, replace_of, non_cross_of}

if-not {ℓ} : {A : Type ℓ} (p : Bool) (y k : A) → (if not p then k else y) ≡ (if p then y else k)
if-not true y k = refl
if-not false y k = refl

if-and {ℓ} : {A : Type ℓ} (p : Bool) (y k : A) → (if p then y else k) ≡ (if p && true then y else k)
if-and true y k = refl
if-and false y k = refl

if-never {ℓ} : {A : Type ℓ} (p : Bool) (y k : A) → k ≡ (if p && false then y else k)
if-never true y k = refl
if-never false y k = refl

if-or {ℓ} :
    {A : Type ℓ} (a b c : Bool) (x k : A)
    → (if a || b || c then k else x) ≡ (if a then k else (if b || c then k else x))
if-or true b c x k = refl
if-or false b c x k = refl

guarded {ℓ} :
    {A : Type ℓ} (p : Bool) (k : A) {r : Bool} {x y : A}
    → r ≡ not p
    → x ≡ y
    → (if r then k else x) ≡ (if p then y else k)
guarded p k {y} r_ok x_ok = ap₂ (λ r x. if r then k else x) r_ok x_ok ∙ if-not p y k

word32 : (x : ℕ) (rest : List ℕ) → read_be32 (be32 x rest) 0 ≡ x
word32 x rest =
    ap₂ (λ (a b : ℕ). a * 2 ^ 16 + b) (whole 8 (x / 2 ^ 16)) (whole 8 (x % 2 ^ 16)) ∙ whole 16 x

word64 : (x : ℕ) (rest : List ℕ) → read_be64 (be64 x rest) 0 ≡ x
word64 x rest =
    ap₂ (λ (a b : ℕ). a * 2 ^ 32 + b) (word32 (x / 2 ^ 32) []) (word32 (x % 2 ^ 32) rest)
    ∙ whole 32 x

word48 : (x : ℕ) (rest : List ℕ) → read_ts6 (be48 x rest) 0 ≡ x
word48 x rest =
    ap₂ (λ (a b : ℕ). a * 2 ^ 32 + b) (whole 8 (x / 2 ^ 32)) (word32 (x % 2 ^ 32) rest) ∙ whole 32 x

check_locate-encode :
    (s : ItchParser) (h : Header) (m : Message) (rest : List ℕ)
    → check_locate s (encode h m rest) ≡ passes s h.locate
unfolding check_locate encode
check_locate-encode s h m rest =
    let long : ltb (length (encode h m rest)) 3 ≡ false = ltb_of_le (omega arith) in
    elim (Bool-cases s.filtering) [
      | inl on ↦ rw (on, long, whole 8 h.locate) refl
      | inr off ↦ rw (off) refl
    ]

is_refused-encode :
    (s : ItchParser) (h : Header) (m : Message) (rest : List ℕ) (size : ℕ)
    → ltb (length (encode h m rest)) size ≡ false
    → is_refused s (encode h m rest) size ≡ not (passes s h.locate)
is_refused-encode s h m rest size long =
    ap₂ (λ a b. a || not b) long (check_locate-encode s h m rest)

module _ (s : ItchParser) (h : Header) (rest : List ℕ) where
  parse_delete-encode :
      (id : ℕ)
      → parse_delete s (encode h (Message.delete id) rest)
        ≡ (if passes s h.locate then delete_of s h.timestamp id else skip s)
  unfolding parse_delete encode
  parse_delete-encode id =
      guarded (passes s h.locate) (skip s)
        (is_refused-encode s h (Message.delete id) rest 19 (ltb_of_le (omega arith)))
        (ap₂ (delete_of s) (word48 h.timestamp []) (word64 id rest))

  parse_executed-encode :
      (id qty match_no : ℕ)
      → parse_executed s (encode h (Message.executed id qty match_no) rest)
        ≡ (if passes s h.locate then executed_of s h.timestamp id qty else skip s)
  unfolding parse_executed encode
  parse_executed-encode id qty match_no =
      guarded (passes s h.locate) (skip s)
        (is_refused-encode s h (Message.executed id qty match_no) rest 31 (ltb_of_le (omega arith)))
        (λ i. executed_of s (word48 h.timestamp [] i) (word64 id [] i) (word32 qty [] i))

  parse_cancel-encode :
      (id qty next : ℕ)
      → parse_cancel s (encode h (Message.cancel id qty) (next ∷ rest))
        ≡ (if passes s h.locate then cancelled_of s h.timestamp id qty else skip s)
  unfolding parse_cancel encode
  parse_cancel-encode id qty next =
      guarded (passes s h.locate) (skip s)
        (is_refused-encode s h (Message.cancel id qty) (next ∷ rest) 24 (ltb_of_le (omega arith)))
        (λ i.
          cancelled_of s (word48 h.timestamp [] i) (word64 id [] i) (word32 qty (next ∷ rest) i))

  parse_executed_price-encode :
      (id qty match_no printable price : ℕ)
      → parse_executed_price s
          (encode h (Message.executed_price id qty match_no printable price) rest)
        ≡ (if passes s h.locate
            then executed_price_of s h.timestamp id qty (ticks price)
            else skip s)
  unfolding parse_executed_price encode read_price
  parse_executed_price-encode id qty match_no printable price =
      guarded (passes s h.locate) (skip s)
        (is_refused-encode s h (Message.executed_price id qty match_no printable price) rest 36
          (ltb_of_le (omega arith)))
        (λ i.
          executed_price_of s (word48 h.timestamp [] i) (word64 id [] i) (word32 qty [] i)
            (ticks (word32 price [] i)))

  parse_replace-encode :
      (id new_id qty price : ℕ)
      → parse_replace s (encode h (Message.replace id new_id qty price) rest) ≡ (
          if passes s h.locate
          then replace_of s h.timestamp id new_id qty (ticks price)
          else skip s)
  unfolding parse_replace encode read_price
  parse_replace-encode id new_id qty price =
      guarded (passes s h.locate) (skip s)
        (is_refused-encode s h (Message.replace id new_id qty price) rest 35
          (ltb_of_le (omega arith)))
        (λ i.
          replace_of s (word48 h.timestamp [] i) (word64 id [] i) (word64 new_id [] i)
            (word32 qty [] i) (ticks (word32 price [] i)))

  parse_add-encode :
      (id side qty stock price : ℕ)
      → parse_add 36 s (encode h (Message.add id side qty stock price) rest) ≡ (
          if passes s h.locate
          then add_of s h.timestamp id (side_of side) qty (ticks price)
          else skip s)
  unfolding parse_add encode read_price
  parse_add-encode id side qty stock price =
      let m = Message.add id side qty stock price in
      if-or (is_refused s (encode h m rest) 36) _ _ _ _
      ∙ guarded (passes s h.locate) (skip s)
          (is_refused-encode s h m rest 36 (ltb_of_le (omega arith)))
          (λ i.
            add_of s (word48 h.timestamp [] i) (word64 id [] i) (side_of side) (word32 qty [] i)
              (ticks (word32 price [] i)))

  parse_add-encode_mpid :
      (id side qty stock price attribution : ℕ)
      → parse_add 40 s (encode h (Message.add_mpid id side qty stock price attribution) rest) ≡ (
          if passes s h.locate
          then add_of s h.timestamp id (side_of side) qty (ticks price)
          else skip s)
  unfolding parse_add encode read_price
  parse_add-encode_mpid id side qty stock price attribution =
      let m = Message.add_mpid id side qty stock price attribution in
      if-or (is_refused s (encode h m rest) 40) _ _ _ _
      ∙ guarded (passes s h.locate) (skip s)
          (is_refused-encode s h m rest 40 (ltb_of_le (omega arith)))
          (λ i.
            add_of s (word48 h.timestamp [] i) (word64 id [] i) (side_of side) (word32 qty [] i)
              (ticks (word32 price [] i)))

  parse_trade-encode :
      (id side qty stock price match_no : ℕ)
      → parse_trade s (encode h (Message.trade id side qty stock price match_no) rest) ≡ (
          if passes s h.locate
          then non_cross_of s h.timestamp id (side_of side) qty (ticks price)
          else skip s)
  unfolding parse_trade encode read_price
  parse_trade-encode id side qty stock price match_no =
      let m = Message.trade id side qty stock price match_no in
      if-or (is_refused s (encode h m rest) 44) _ _ _ _
      ∙ guarded (passes s h.locate) (skip s)
          (is_refused-encode s h m rest 44 (ltb_of_le (omega arith)))
          (λ i.
            non_cross_of s (word48 h.timestamp [] i) (word64 id [] i) (side_of side)
              (word32 qty [] i) (ticks (word32 price [] i)))

  parse_cancel-encode_short :
      (id qty : ℕ) → parse_cancel s (encode h (Message.cancel id qty) []) ≡ skip s
  unfolding parse_cancel encode
  parse_cancel-encode_short id qty = refl

-- The parser reads the bytes of a message, whatever follows them, as the message's meaning where it is
-- of the filtered instrument, of none, or there is no filter, and skips it otherwise; a cancel it
-- skips also where no byte follows.
pub parse-meaning :
    (s : ItchParser) (h : Header) (m : Message) (rest : List ℕ)
    → parse (type_of m) s (encode h m rest)
      ≡ (if passes s h.locate && is_long m rest then meaning s h m else skip s)
unfolding parse dispatch
parse-meaning s h (Message.add id side qty stock price) rest =
    parse_add-encode s h rest id side qty stock price ∙ if-and (passes s h.locate) _ _
parse-meaning s h (Message.add_mpid id side qty stock price attribution) rest =
    parse_add-encode_mpid s h rest id side qty stock price attribution
    ∙ if-and (passes s h.locate) _ _
parse-meaning s h (Message.executed id qty match_no) rest =
    parse_executed-encode s h rest id qty match_no ∙ if-and (passes s h.locate) _ _
parse-meaning s h (Message.executed_price id qty match_no printable price) rest =
    parse_executed_price-encode s h rest id qty match_no printable price
    ∙ if-and (passes s h.locate) _ _
parse-meaning s h (Message.cancel id qty) [] =
    parse_cancel-encode_short s h [] id qty ∙ if-never (passes s h.locate) _ _
parse-meaning s h (Message.cancel id qty) (next ∷ rest) =
    parse_cancel-encode s h rest id qty next ∙ if-and (passes s h.locate) _ _
parse-meaning s h (Message.delete id) rest =
    parse_delete-encode s h rest id ∙ if-and (passes s h.locate) _ _
parse-meaning s h (Message.replace id new_id qty price) rest =
    parse_replace-encode s h rest id new_id qty price ∙ if-and (passes s h.locate) _ _
parse-meaning s h (Message.trade id side qty stock price match_no) rest =
    parse_trade-encode s h rest id side qty stock price match_no ∙ if-and (passes s h.locate) _ _
