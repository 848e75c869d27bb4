-- ===== src/Breaker/Metrics/Window.antt =====
-- What the sliding window holds: the last calls, or the calls of the last seconds.
use durallm.Common.{
  ℕ, suc, ◌+◌, ◌-◌, ◌*◌, ◌≤◌, ◌≡◌, refl, ap, ◌∙◌, sym, Bool, true, inl, inr, List, [], ◌∷◌, ◌++◌,
  map, arith, length, ltb, leb, Bool-cases, last, length-append, length-drop, All,
}
use mathlib.Core.List.{append_assoc, append-nil}
use durallm.Breaker.Metrics.{
  SlidingWindowType, count_based, time_based, snapshot, reset, CallOutcome, SlidingWindowMetrics,
  evict_count, evict_time, evict_by, evict_expired, record_call, outcome,
}

pub evict_count-eq-last : (size : ℕ) (ss : List CallOutcome) → evict_count size ss ≡ last size ss
unfolding evict_count
evict_count-eq-last size [] = ground arith
evict_count-eq-last size (s ∷ ss) = elim (Bool-cases (ltb size (length (s ∷ ss)))) [
  | inl p ↦
      let e : length (s ∷ ss) - size ≡ suc (length ss - size) = ground arith in
      rw p (rw e (evict_count-eq-last size ss))
  | inr p ↦ let e : length (s ∷ ss) - size ≡ 0 = ground arith in rw p (rw e)
]

pub length-evict_count-le : (size : ℕ) (ss : List CallOutcome) → length (evict_count size ss) ≤ size
length-evict_count-le size ss =
    rw evict_count-eq-last (omega (arith, length-drop (length ss - size) ss))

-- Evicting early loses nothing that a later eviction would have kept.
evict_count-append :
    (size : ℕ) (ss ts : List CallOutcome)
    → evict_count size (evict_count size ss ++ ts) ≡ evict_count size (ss ++ ts)
unfolding evict_count
evict_count-append size [] ts = refl
evict_count-append size (s ∷ ss) ts = elim (Bool-cases (ltb size (length (s ∷ ss)))) [
  | inl p ↦
      let q : ltb size (length (s ∷ ss ++ ts)) ≡ true = ground (arith, length-append ss ts) in
      rw p (rw q (evict_count-append size ss ts))
  | inr p ↦ rw p
]

-- One completed call, as `record` is given it.
pub record Completed : Type 0 where
  pub success : Bool
  pub duration_ms : ℕ
  pub now : ℕ
  pub poisons : Bool

pub record_all : SlidingWindowMetrics → List Completed → SlidingWindowMetrics
record_all m [] = m
record_all m (c ∷ cs) = record_all (record_call c.success c.duration_ms c.now c.poisons m) cs

abbrev pub outcomes : SlidingWindowMetrics → List Completed → List CallOutcome
outcomes m = map (λ c. outcome m.slow_call_duration_ms c.success c.duration_ms c.now c.poisons)

record_call_count :
    (c : Completed) (m : SlidingWindowMetrics)
    → m.window_type ≡ count_based
    → record_call c.success c.duration_ms c.now c.poisons m ≡ record m {
      samples = evict_count m.window_size (
          m.samples
          ++ outcome m.slow_call_duration_ms c.success c.duration_ms c.now c.poisons ∷ []);
    }
unfolding record_call evict_expired
record_call_count c m e =
    ap
      (λ w. record m {
        samples = evict_by w m.window_size c.now (
            m.samples
            ++ outcome m.slow_call_duration_ms c.success c.duration_ms c.now c.poisons ∷ []);
      })
      e

pub evict_count_idem :
    (size : ℕ) (ss : List CallOutcome)
    → evict_count size (evict_count size ss) ≡ evict_count size ss
evict_count_idem size ss =
    ap (evict_count size) (sym (append-nil (evict_count size ss)))
    ∙ evict_count-append size ss []
    ∙ ap (evict_count size) (append-nil ss)

record_all_from :
    (m : SlidingWindowMetrics) (ss : List CallOutcome) (cs : List Completed)
    → m.window_type ≡ count_based
    → evict_count m.window_size ss ≡ ss
    → (record_all (record m { samples = ss }) cs).samples
      ≡ evict_count m.window_size (ss ++ outcomes m cs)
unfolding record_all
record_all_from m ss [] e h = sym (ap (evict_count m.window_size) (append-nil ss) ∙ h)
record_all_from m ss (c ∷ cs) e h =
    let o = outcome m.slow_call_duration_ms c.success c.duration_ms c.now c.poisons in
    let size = m.window_size in
    ap (λ m'. (record_all m' cs).samples) (record_call_count c (record m { samples = ss }) e)
    ∙ (record_all_from m (evict_count size (ss ++ o ∷ [])) cs e
          (evict_count_idem size (ss ++ o ∷ []))
        ∙ evict_count-append size (ss ++ o ∷ []) (outcomes m cs)
        ∙ ap (evict_count size) (append_assoc ss (o ∷ []) (outcomes m cs)))

-- A COUNT_BASED window that starts empty holds, after any sequence of calls, exactly the outcomes
-- of the last `window_size` of them, oldest first.
pub record_all-eq-last :
    (m : SlidingWindowMetrics) (cs : List Completed)
    → m.window_type ≡ count_based
    → m.samples ≡ []
    → (record_all m cs).samples ≡ last m.window_size (outcomes m cs)
record_all-eq-last m cs e empty =
    ap (λ ss. (record_all (record m { samples = ss }) cs).samples) empty
    ∙ record_all_from m [] cs e (unfold evict_count in refl)
    ∙ evict_count-eq-last m.window_size (outcomes m cs)

-- The window after one more outcome. Evicting it again changes nothing.
pub evict-record_call :
    (m : SlidingWindowMetrics) (won : Bool) (ms now : ℕ) (poisons : Bool)
    → m.window_type ≡ count_based
    → (evict_expired now (record_call won ms now poisons m)).samples
      ≡ last m.window_size (m.samples ++ outcome m.slow_call_duration_ms won ms now poisons ∷ [])
unfolding record_call evict_expired
evict-record_call m won ms now poisons e =
    let size = m.window_size in
    let ss = m.samples ++ outcome m.slow_call_duration_ms won ms now poisons ∷ [] in
    ap (λ w. evict_by w size now (evict_by w size now ss)) e
    ∙ evict_count_idem size ss
    ∙ evict_count-eq-last size ss

evict_by-nil : (w : SlidingWindowType) (size now : ℕ) → evict_by w size now [] ≡ []
unfolding evict_by evict_count evict_time
evict_by-nil count_based size now = refl
evict_by-nil time_based size now = refl

pub snapshot-reset : (now : ℕ) (m : SlidingWindowMetrics) → (snapshot now (reset m)).1.samples ≡ []
unfolding snapshot reset evict_expired
snapshot-reset now m = evict_by-nil m.window_type m.window_size now

-- The samples are in the order of their times.
abbrev pub InOrder : List CallOutcome → Type 0
InOrder [] = Unit
InOrder (s ∷ ss) = All (λ t. s.timestamp_monotonic ≤ t.timestamp_monotonic) ss × InOrder ss

-- A sample that is at most `size` seconds old at `now`.
abbrev pub is_fresh : ℕ → ℕ → CallOutcome → Bool
is_fresh size now s = leb now (s.timestamp_monotonic + size * 1000)
