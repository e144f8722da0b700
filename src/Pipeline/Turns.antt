-- ===== src/Pipeline/Turns.antt =====
-- The native loop of src/app/main_replay.cpp is one turn after the other on the messages of the file.
use mockex.Prelude.{
  ℕ, zero, suc, ◌+◌, ◌-◌, ◌^◌, ◌≤◌, ◌<◌, ◌≡◌, refl, ap, ◌∙◌, arith, leb, take, take-nil,
}
use mockex.Prelude.{
  ◌⊎◌, Option, none, List, [], ◌∷◌, Option-cases, Bool-cases, inl, inr, leb→le, length, false,
}
use mockex.Types.{add64}
use mockex.Parser.{parse}
use mockex.OrderGateway.{FillInfo}
use mockex.ReplayReader.{ReplayReader, RawMsg, next, read_all}
use mockex.ReplayReader.Bounds.{IsValid, Outcome, ended, moved, next-Outcome, moved-IsValid}
use mockex.Pipeline.{Session, on_one_fill, on_raw, on_itch_raw, replay, ingress}
use mockex.Pipeline.Invariants.{Anything, KeptByEvents, KeptInside-KeptByUpdates, on_parsed-kept}
use mockex.Pipeline.Invariants.{process_itch-kept}
use mockex.ItchParser
use mockex.ItchParser.{ItchParser}
use mockex.ItchReplayReader.{ItchRawMsg}

-- Turns on messages.
unfoldable pub on_raws : (ℕ → ℕ) → Session → List RawMsg → Session
on_raws clock s [] = s
on_raws clock s (m ∷ ms) = on_raws clock (on_raw clock s m) ms

abbrev HasCount : ℕ → Session → Type 0
HasCount n s = s.msgs_processed ≡ n

on_one_fill_count :
    (n : ℕ) (s : Session) (f : FillInfo) → HasCount n s → HasCount n (on_one_fill s f)
unfolding on_one_fill
on_one_fill_count n s f h = h

module _ (clock : ℕ → ℕ) where
  HasCount-KeptByEvents : (n : ℕ) → KeptByEvents clock (HasCount n) Anything
  HasCount-KeptByEvents n = record {
    updates = KeptInside-KeptByUpdates clock (HasCount n) (record {
      measured = λ s label since h. h;
      risked = λ s e h. h;
      gated = λ s g h. h;
      filled = on_one_fill_count n;
    });
    booked = λ s b k h. h;
  }

  -- A turn counts one message.
  pub on_raw_count :
      (s : Session) (raw : RawMsg) → (on_raw clock s raw).msgs_processed ≡ add64 s.msgs_processed 1
  unfolding on_raw
  on_raw_count s raw =
      on_parsed-kept clock (HasCount (add64 s.msgs_processed 1)) (HasCount-KeptByEvents _) _
        (ingress clock s) (parse raw.type raw.payload) refl

  pub on_itch_raw_count :
      (s : Session) (p : ItchParser) (raw : ItchRawMsg)
      → (on_itch_raw clock (s, p) raw).0.msgs_processed ≡ add64 s.msgs_processed 1
  unfolding on_itch_raw
  on_itch_raw_count s p raw =
      process_itch-kept clock (HasCount (add64 s.msgs_processed 1)) (HasCount-KeptByEvents _) _
        (ingress clock s) (ItchParser.parse raw.msg_type p raw.payload).1 refl

  -- How many turns are left until the limit.
  turns_left :
      (s : Session) (m : RawMsg) (max_msgs : ℕ)
      → max_msgs < 2 ^ 64
      → leb max_msgs s.msgs_processed ≡ false
      → max_msgs - s.msgs_processed ≡ suc (max_msgs - (on_raw clock s m).msgs_processed)
  turns_left s m max_msgs small more = ground (arith, on_raw_count s m)

  -- Within a limit that a uint64_t holds, the loop leaves the session that turns on the messages of
  -- the file give, one after the other, as many as the limit still allows.
  pub replay_turns :
      (fuel max_msgs : ℕ) (r : ReplayReader) (s : Session)
      → max_msgs < 2 ^ 64
      → (replay clock fuel max_msgs r s).0
        ≡ on_raws clock s (take (max_msgs - s.msgs_processed) (read_all fuel r).1)
  unfolding replay read_all on_raws
  replay_turns zero max_msgs r s small = rw (take-nil (max_msgs - s.msgs_processed)) refl
  replay_turns (suc fuel) max_msgs r s small = elim (Option-cases (next r).1) [
    | inl over ↦ rw (over, replay, read_all, take-nil (max_msgs - s.msgs_processed)) refl
    | inr (m, e) ↦ elim (Bool-cases (leb max_msgs s.msgs_processed)) [
      | inl full ↦
          let none_left : max_msgs - s.msgs_processed ≡ 0 = omega (arith, leb→le _ _ full) in
          rw (e, full, none_left, replay) refl
      | inr more ↦
          let ih = replay_turns fuel max_msgs (next r).0 (on_raw clock s m) small in
          rw (e, more, turns_left s m max_msgs small more, replay, read_all) ih
    ]
  ]

  -- The turns count the messages.
  pub on_raws_count :
      (s : Session) (ms : List RawMsg)
      → s.msgs_processed + length ms < 2 ^ 64
      → (on_raws clock s ms).msgs_processed ≡ s.msgs_processed + length ms
  unfolding on_raws
  on_raws_count s [] h = omega arith
  on_raws_count s (m ∷ ms) h =
      let one = on_raw_count s m in
      omega (arith, one, on_raws_count (on_raw clock s m) ms (omega (arith, one)))

  -- From a position inside a mapped file, with more rounds than bytes left, the loop ends because the
  -- file has no message left or because the limit is reached.
  pub replay-ends :
      (fuel max_msgs : ℕ) (r : ReplayReader) (s : Session)
      → IsValid r
      → r.size < r.pos + fuel
      → let (t, r') = replay clock fuel max_msgs r s in
        ((next r').1 ≡ none) ⊎ (max_msgs ≤ t.msgs_processed)
  unfolding replay
  replay-ends zero max_msgs r s v h = absurd (omega (arith, v.inside))
  replay-ends (suc fuel) max_msgs r s v h =
      go (next r) refl (next-Outcome r v) (λ r'. replay-ends fuel max_msgs r')
    where
      Ended : Session × ReplayReader → Type 0
      Ended o = ((next o.1).1 ≡ none) ⊎ (max_msgs ≤ o.0.msgs_processed)

      go :
          (o : ReplayReader × Option RawMsg)
          → next r ≡ o
          → Outcome r o
          → ((r' : ReplayReader) (t : Session)
              → IsValid r'
              → r'.size < r'.pos + fuel
              → Ended (replay clock fuel max_msgs r' t))
          → Ended (replay clock (suc fuel) max_msgs r s)
      go o e ended ih =
          let nothing : (next r).1 ≡ none = ap (λ q. q.1) e in
          let same : (next r).0 ≡ r = ap (λ q. q.0) e in
          rw (nothing, replay) (inl (ap (λ q. (next q).1) same ∙ nothing))
      go o e (moved r' m at le full same size) ih =
          elim (Bool-cases (leb max_msgs s.msgs_processed)) [
            | inl reached ↦ rw (ap (λ q. q.1) e, reached, replay) (inr (leb→le _ _ reached))
            | inr more ↦
                rw (ap (λ q. q.1) e, ap (λ q. q.0) e, more, replay)
                  (ih r' (on_raw clock s m) (moved-IsValid r r' v same size le) (omega arith))
          ]
