-- ===== src/LatencyTracker/Samples.antt =====
-- What src/common/latency_tracker.hpp keeps of the samples that come.
use mockex.Prelude.{
  subst, ℕ, zero, suc, ◌-◌, ◌%◌, ◌^◌, ◌≡◌, refl, ap, ◌∙◌, sym, arith, List, [], ◌∷◌,
}
use mockex.Prelude.{◌++◌, length, take, length-append, take-nil, if◌then◌else◌, ltb, ◌==◌}
use mockex.Prelude.{Bool-cases, inl, inr, ◌&&◌}
use mockex.LatencyTracker.{Label, Buf, LatencyTracker, create, record_span, record_raw, push_sample}
use native.Mathlib.Decide.{ℕ_discrete}
use mathlib.Core.List.{append-nil, append_assoc}
use mockex.LatencyTracker.{md_ingress, book_update, strategy, risk, gateway, tick_to_ack}
use mockex.LatencyTracker.{cap_samples, index_of}

-- Two readings of the clock for a stage.
pub record Span : Type 0 where
  pub label : Label
  pub start_tsc : ℕ
  pub end_tsc : ℕ

unfoldable pub record_spans : LatencyTracker → List Span → LatencyTracker
record_spans t [] = t
record_spans t (s ∷ ss) = record_spans (record_span t s.label s.start_tsc s.end_tsc) ss

-- The positive durations of a stage, in order.
unfoldable pub durations : Label → List Span → List ℕ
durations l [] = []
durations l (s ∷ ss) =
    if (index_of l == index_of s.label) && ltb s.start_tsc s.end_tsc
    then (s.end_tsc - s.start_tsc) ∷ durations l ss
    else durations l ss

-- What a buffer holds of some durations: the first of them, as many as it has room for, and their
-- number.
pub record Keeps (b : Buf) (ds : List ℕ) : Type 0 where
  pub first : b.samples ≡ take cap_samples ds
  pub counted : b.total ≡ length ds % 2 ^ 64

take_snoc :
    (n : ℕ) (ds : List ℕ) (d : ℕ)
    → take n (ds ++ (d ∷ []))
      ≡ (if ltb (length (take n ds)) n then take n ds ++ (d ∷ []) else take n ds)
take_snoc zero ds d = ground arith
take_snoc (suc n) [] d = ground (arith, take-nil {A = ℕ} n)
take_snoc (suc n) (e ∷ ds) d = ground (arith, take_snoc n ds d)

push_sample-Keeps :
    (b : Buf) (ds : List ℕ) (d : ℕ) → Keeps b ds → Keeps (push_sample b d) (ds ++ (d ∷ []))
unfolding push_sample
push_sample-Keeps b ds d k = record {
  first = rw k.first (sym (take_snoc cap_samples ds d));
  counted = omega (arith, k.counted, length-append ds (d ∷ []));
}

label_of : ℕ → Label
label_of zero = md_ingress
label_of (suc zero) = book_update
label_of (suc (suc zero)) = strategy
label_of (suc (suc (suc zero))) = risk
label_of (suc (suc (suc (suc zero)))) = gateway
label_of (suc (suc (suc (suc (suc n))))) = tick_to_ack

label_of-index_of : (l : Label) → label_of (index_of l) ≡ l
unfolding label_of
label_of-index_of md_ingress = refl
label_of-index_of book_update = refl
label_of-index_of strategy = refl
label_of-index_of risk = refl
label_of-index_of gateway = refl
label_of-index_of tick_to_ack = refl

index_of_injective : (a b : Label) → index_of a ≡ index_of b → a ≡ b
index_of_injective a b e = sym (label_of-index_of a) ∙ ap label_of e ∙ label_of-index_of b

-- What a reading does to one of the buffers.
bufs-record_span :
    (t : LatencyTracker) (label l : Label) (a b : ℕ)
    → (record_span t label a b).bufs l ≡ (
        if (index_of l == index_of label) && ltb a b
        then push_sample (t.bufs l) (b - a)
        else t.bufs l)
unfolding record_span record_raw
bufs-record_span t label l a b = elim (ℕ_discrete (index_of l) (index_of label)) [
  | no other ↦ ground (arith, other)
  | yes same ↦ rw (← index_of_injective l label same) (ground arith)
]

record_span-Keeps :
    (t : LatencyTracker) (l : Label) (s : Span) (ds : List ℕ)
    → Keeps (t.bufs l) ds
    → Keeps ((record_span t s.label s.start_tsc s.end_tsc).bufs l) (ds ++ durations l (s ∷ []))
unfolding durations
record_span-Keeps t l s ds k =
    elim (Bool-cases ((index_of l == index_of s.label) && ltb s.start_tsc s.end_tsc)) [
      | inl taken ↦
          rw (bufs-record_span, taken) (push_sample-Keeps (t.bufs l) ds (s.end_tsc - s.start_tsc) k)
      | inr left ↦ rw (bufs-record_span, left, append-nil) k
    ]

durations-cons :
    (l : Label) (s : Span) (ss : List Span)
    → durations l (s ∷ ss) ≡ durations l (s ∷ []) ++ durations l ss
unfolding durations
durations-cons l s ss = ground arith

record_spans-Keeps :
    (t : LatencyTracker) (l : Label) (ss : List Span) (ds : List ℕ)
    → Keeps (t.bufs l) ds
    → Keeps ((record_spans t ss).bufs l) (ds ++ durations l ss)
unfolding record_spans durations
record_spans-Keeps t l [] ds k = rw append-nil k
record_spans-Keeps t l (s ∷ ss) ds k =
    let one = record_span-Keeps t l s ds k in
    let rest =
      record_spans-Keeps (record_span t s.label s.start_tsc s.end_tsc) l ss
        (ds ++ durations l (s ∷ [])) one in
    subst (λ xs. Keeps ((record_spans t (s ∷ ss)).bufs l) xs)
      (append_assoc ds (durations l (s ∷ [])) (durations l ss)
        ∙ ap (λ xs. ds ++ xs) (sym (durations-cons l s ss)))
      rest

-- After any readings, a new tracker holds for each stage the first positive durations of that stage,
-- 262144 at most, in their order, and has counted all of them, modulo 2 ^ 64.
pub record_spans-create :
    (l : Label) (ss : List Span) → Keeps ((record_spans create ss).bufs l) (durations l ss)
record_spans-create l ss =
    record_spans-Keeps create l ss []
      (record { first = sym (take-nil cap_samples); counted = refl })
