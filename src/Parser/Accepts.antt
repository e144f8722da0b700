-- ===== src/Parser/Accepts.antt =====
-- What src/feed/parser.cpp accepts: exactly the encodings of messages whose fields fit their widths and
-- pass the checks of their type.
use mockex.Prelude.{ℕ, ◌≤◌, ◌<◌, ◌≡◌, ◌≢◌, refl, sym, ap, ◌∙◌}
use mockex.Prelude.{arith, inl, inr, List, ◌∷◌, ◌++◌, length, drop, subst}
use mockex.Prelude.{ltb, Bool-cases, false}
use mathlib.Core.Logic.{◌↔◌}
use mockex.Types.{MsgType, add_order, modify_order, cancel_order, trade, clear, unknown}
use mockex.Types.{AddOrderMsg, ModifyOrderMsg, TradeMsg}
use mockex.Parser.{ParsedMsg, parsed_add, parsed_modify, parsed_cancel, parsed_trade, parsed_clear}
use mockex.Parser.{parse_modify, parse_cancel, parse_trade, parse_clear, check_trade, check_modify}
use mockex.Parser.{parse_error, parse, parse_add, check_add, to_side, is_invalid_side}
use mockex.Parser.{read_u8, read_u32, read_u64}
use mockex.Parser.RoundTrip.{le, type_of, encode, side_byte, IsEncodable, parse-encode}
use mockex.Parser.Fields.{AreBytes, side_byte-to_side, drop-get_or, fits_at, chain, begin}

-- What is no error.
abbrev pub IsMsg : ParsedMsg → Type 0
IsMsg (parse_error e) = 0 < 0
IsMsg _ = Unit

-- The bytes of a message whose fields fit and pass, with any bytes behind it.
abbrev pub Accepted : MsgType → List ℕ → ParsedMsg → Type 0
Accepted t bytes m = (rest : List ℕ) × (bytes ≡ encode m rest) × IsEncodable m × (type_of m ≡ t)

check_add-accept :
    (m : AddOrderMsg)
    → IsMsg (check_add m)
    → (check_add m ≡ parsed_add m)
      × (m.qty ≢ 0)
      × (m.price_ticks ≢ 0)
      × (is_invalid_side m.side ≡ false)
unfolding check_add
check_add-accept m h = ground arith

check_modify-accept :
    (m : ModifyOrderMsg)
    → IsMsg (check_modify m)
    → (check_modify m ≡ parsed_modify m) × (m.new_qty ≢ 0)
unfolding check_modify
check_modify-accept m h = ground arith

check_trade-accept :
    (m : TradeMsg) → IsMsg (check_trade m) → (check_trade m ≡ parsed_trade m) × (m.qty ≢ 0)
unfolding check_trade
check_trade-accept m h = ground arith

module _ (bytes : List ℕ) (ok : AreBytes bytes) where
  parse_clear-accept : IsMsg (parse_clear bytes) → Accepted clear bytes (parse_clear bytes)
  unfolding parse_clear encode type_of le
  parse_clear-accept = elim (Bool-cases (ltb (length bytes) 20)) [
    | inl short ↦ rw (short, parse_clear) (λ h. absurd (omega arith))
    | inr long ↦
        let enough : 20 ≤ length bytes = ground arith in
        let whole = chain bytes ok 0 8 _ (omega arith) (
          chain bytes ok 8 8 _ (omega arith)
            (chain bytes ok 16 4 (drop 20 bytes) (omega arith) refl)) in
        rw (long, parse_clear)
          (λ h. (
            drop 20 bytes,
            sym whole,
            (fits_at bytes ok 0 8, fits_at bytes ok 8 8, fits_at bytes ok 16 4),
            refl,
          ))
  ]

  parse_cancel-accept :
      IsMsg (parse_cancel bytes) → Accepted cancel_order bytes (parse_cancel bytes)
  unfolding parse_cancel encode type_of le
  parse_cancel-accept = elim (Bool-cases (ltb (length bytes) 32)) [
    | inl short ↦ rw (short, parse_cancel) (λ h. absurd (omega arith))
    | inr long ↦
        let enough : 32 ≤ length bytes = ground arith in
        let whole =
          begin bytes ok _ (omega arith) (chain bytes ok 28 4 (drop 32 bytes) (omega arith) refl) in
        rw (long, parse_cancel)
          (λ h. (
            drop 32 bytes,
            sym whole,
            (
              fits_at bytes ok 0 8,
              fits_at bytes ok 8 8,
              fits_at bytes ok 16 8,
              fits_at bytes ok 24 4,
              fits_at bytes ok 28 4,
            ),
            refl,
          ))
  ]

  parse_modify-accept :
      IsMsg (parse_modify bytes) → Accepted modify_order bytes (parse_modify bytes)
  unfolding parse_modify encode type_of le
  parse_modify-accept = elim (Bool-cases (ltb (length bytes) 36)) [
    | inl short ↦ rw (short, parse_modify) (λ h. absurd (omega arith))
    | inr long ↦
        let enough : 36 ≤ length bytes = ground arith in
        let whole = begin bytes ok _ (omega arith) (
          chain bytes ok 28 4 _ (omega arith)
            (chain bytes ok 32 4 (drop 36 bytes) (omega arith) refl)) in
        rw (long, parse_modify)
          (λ h.
            let (accepted, some_qty) = check_modify-accept _ h in
            rw accepted (
              drop 36 bytes,
              sym whole,
              (
                fits_at bytes ok 0 8,
                fits_at bytes ok 8 8,
                fits_at bytes ok 16 8,
                fits_at bytes ok 24 4,
                fits_at bytes ok 28 4,
                fits_at bytes ok 32 4,
                some_qty,
              ),
              refl,
            ))
  ]

  -- The fields of an add and of a trade.
  priced :
      37 ≤ length bytes
      → le 8 (read_u64 bytes 0)
          ++ (le 8 (read_u64 bytes 8)
              ++ (le 8 (read_u64 bytes 16)
                  ++ (le 4 (read_u32 bytes 24)
                      ++ (le 4 (read_u32 bytes 28)
                          ++ (le 4 (read_u32 bytes 32)
                              ++ (side_byte (to_side (read_u8 bytes 36)) ∷ drop 37 bytes))))))
        ≡ bytes
  priced enough = begin bytes ok _ (omega arith) (
      chain bytes ok 28 4 _ (omega arith) (
        chain bytes ok 32 4 _ (omega arith) (
          ap (λ b. b ∷ drop 37 bytes) (side_byte-to_side (read_u8 bytes 36))
          ∙ drop-get_or 36 bytes (omega arith))))

  parse_add-accept : IsMsg (parse_add bytes) → Accepted add_order bytes (parse_add bytes)
  unfolding parse_add encode type_of le
  parse_add-accept = elim (Bool-cases (ltb (length bytes) 37)) [
    | inl short ↦ rw (short, parse_add) (λ h. absurd (omega arith))
    | inr long ↦
        let whole = priced (ground arith) in
        let msg : AddOrderMsg = record {
          seq_no = read_u64 bytes 0;
          ts_exchange = read_u64 bytes 8;
          order_id = read_u64 bytes 16;
          instrument_id = read_u32 bytes 24;
          price_ticks = read_u32 bytes 28;
          qty = read_u32 bytes 32;
          side = to_side (read_u8 bytes 36);
        } in
        rw (long, parse_add)
          (λ h.
            let (accepted, some_qty, some_price, sided) = check_add-accept msg h in
            rw accepted (
              drop 37 bytes,
              sym whole,
              (
                fits_at bytes ok 0 8,
                fits_at bytes ok 8 8,
                fits_at bytes ok 16 8,
                fits_at bytes ok 24 4,
                fits_at bytes ok 28 4,
                fits_at bytes ok 32 4,
                some_qty,
                some_price,
                sided,
              ),
              refl,
            ))
  ]

  parse_trade-accept : IsMsg (parse_trade bytes) → Accepted trade bytes (parse_trade bytes)
  unfolding parse_trade encode type_of le
  parse_trade-accept = elim (Bool-cases (ltb (length bytes) 37)) [
    | inl short ↦ rw (short, parse_trade) (λ h. absurd (omega arith))
    | inr long ↦
        let whole = priced (ground arith) in
        rw (long, parse_trade)
          (λ h.
            let (accepted, some_qty) = check_trade-accept _ h in
            rw accepted (
              drop 37 bytes,
              sym whole,
              (
                fits_at bytes ok 0 8,
                fits_at bytes ok 8 8,
                fits_at bytes ok 16 8,
                fits_at bytes ok 24 4,
                fits_at bytes ok 28 4,
                fits_at bytes ok 32 4,
                some_qty,
                ap to_side (side_byte-to_side (read_u8 bytes 36)),
              ),
              refl,
            ))
  ]

  parse-Accepted : (t : MsgType) → IsMsg (parse t bytes) → Accepted t bytes (parse t bytes)
  unfolding parse
  parse-Accepted add_order = parse_add-accept
  parse-Accepted modify_order = parse_modify-accept
  parse-Accepted cancel_order = parse_cancel-accept
  parse-Accepted trade = parse_trade-accept
  parse-Accepted clear = parse_clear-accept
  parse-Accepted (unknown n) = λ h. absurd (omega arith)

IsEncodable-IsMsg : (m : ParsedMsg) → IsEncodable m → IsMsg m
IsEncodable-IsMsg (parsed_add m) h = tt
IsEncodable-IsMsg (parsed_modify m) h = tt
IsEncodable-IsMsg (parsed_cancel m) h = tt
IsEncodable-IsMsg (parsed_trade m) h = tt
IsEncodable-IsMsg (parsed_clear m) h = tt
IsEncodable-IsMsg (parse_error e) h = h

-- On any bytes and for any tag, the parser gives a message, and no error, exactly if the tag is that of
-- the message, the bytes begin with its encoding, its fields fit their widths, and they pass the checks
-- of their type: an add has a quantity and a price that are not 0 and a side that is bid or ask, a
-- modify a quantity that is not 0, and a trade a quantity that is not 0 and the side that its byte
-- stands for, whichever that is. The price of a modify or a trade may be 0, and cancels and clears are
-- not checked.
pub parse-accept_iff :
    (t : MsgType) (bytes : List ℕ) (m : ParsedMsg)
    → AreBytes bytes
    → ((parse t bytes ≡ m) × IsMsg m) ↔ Accepted t bytes m
parse-accept_iff t bytes m ok = (
  λ (e, h). subst (Accepted t bytes) e (parse-Accepted bytes ok t (subst IsMsg (sym e) h)),
  λ (rest, whole, encodable, tag). (
    ap (λ x. parse x bytes) (sym tag)
        ∙ ap (parse (type_of m)) whole
        ∙ parse-encode m rest encodable,
    IsEncodable-IsMsg m encodable,
  ),
)
