-- ===== src/AlertGenerator/Cases/Common/Numbering.antt =====
-- What the loops of ExpectedAlerts guarantee to the alert server.
use compliance.Base.{
  ℕ, zero, suc, ◌+◌, ◌*◌, ◌≤◌, ◌<◌, ◌≡◌, refl, false, List, [], ◌∷◌, ◌++◌, All, All-map, All-append,
  arith, length, length-append,
}
use compliance.AlertGenerator.ExpectedAlert.{ExpectedAlert, should_be_ignored}
use compliance.AlertGenerator.Cases.Common.{
  resend_delay_ms, instants, loop, Expectations, add_alert, add_alerts, add_both,
}

-- The instants of a loop are the multiples of the resend delay after the first one, all of them.
abbrev pub Every : ℕ → ℕ → List ℕ → Type 0
Every ts until [] = until ≤ ts
Every ts until (t ∷ rest) = (t ≡ ts) × (ts < until) × Every (ts + resend_delay_ms) until rest

-- The fuel is enough: the loop ends where the condition fails.
instants-Every :
    (fuel ts until : ℕ)
    → until ≤ ts + fuel * resend_delay_ms
    → Every ts until (instants fuel ts until)
unfolding instants
instants-Every zero ts until h = omega (arith, h)
instants-Every (suc fuel) ts until h =
    ground (arith, instants-Every fuel (ts + resend_delay_ms) until)

loop-Every : (from until : ℕ) → Every from until (loop from until)
loop-Every from until = instants-Every until from until (omega arith)

Every-All :
    (from ts until : ℕ) (l : List ℕ)
    → from ≤ ts
    → Every ts until l
    → All (λ t. (from ≤ t) × (t < until)) l
Every-All from ts until [] h e = tt
Every-All from ts until (t ∷ l) h e = (
  (omega (arith, e.0), omega (arith, e.0, e.1)),
  Every-All from (ts + resend_delay_ms) until l (omega arith) e.2,
)

-- The alerts are numbered from `k + 1` on.
abbrev pub Numbered : {L : Type 0} → ℕ → List (ExpectedAlert L) → Type 0
Numbered k [] = Unit {0}
Numbered k (ea ∷ eas) = (ea.ordering_id ≡ suc k) × Numbered (suc k) eas

module _ {L : Type 0} where
  Numbered-snoc :
      (k : ℕ) (eas : List (ExpectedAlert L)) (ea : ExpectedAlert L)
      → Numbered k eas
      → ea.ordering_id ≡ suc (k + length eas)
      → Numbered k (eas ++ ea ∷ [])
  Numbered-snoc k [] ea h e = (omega (arith, e), tt)
  Numbered-snoc k (x ∷ eas) ea h e = (h.0, Numbered-snoc (suc k) eas ea h.1 (omega (arith, e)))

  -- Numbered from 1 on, as many as `orderingID` says, and none to be ignored at once.
  pub record IsFit (st : Expectations L) : Type 0 where
    pub numbered : Numbered 0 st.exp
    pub as_many : length st.exp ≡ st.ordering_id
    pub wanted : All (λ ea. should_be_ignored ea ≡ false) st.exp

  add_alert-IsFit :
      (ea : ExpectedAlert L) (st : Expectations L)
      → should_be_ignored ea ≡ false
      → IsFit st
      → IsFit (add_alert ea st)
  unfolding add_alert should_be_ignored
  add_alert-IsFit ea st w h = record {
    numbered = Numbered-snoc 0 st.exp _ h.numbered (omega (arith, h.as_many));
    as_many = omega (
      arith,
      length-append st.exp (record ea { ordering_id = st.ordering_id + 1 } ∷ []),
      h.as_many,
    );
    wanted = All-append _ st.exp _ h.wanted (w, tt);
  }

  add_alerts-IsFit :
      (make : ℕ → ExpectedAlert L) (l : List ℕ) (st : Expectations L)
      → All (λ t. should_be_ignored (make t) ≡ false) l
      → IsFit st
      → IsFit (add_alerts make l st)
  unfolding add_alerts
  add_alerts-IsFit make [] st a h = h
  add_alerts-IsFit make (t ∷ l) st a h =
      add_alerts-IsFit make l _ a.1 (add_alert-IsFit (make t) st a.0 h)

  pub loop-IsFit :
      (make : ℕ → ExpectedAlert L) (from until : ℕ) (st : Expectations L)
      → ((t : ℕ) → (from ≤ t) × (t < until) → should_be_ignored (make t) ≡ false)
      → IsFit st
      → IsFit (add_alerts make (loop from until) st)
  loop-IsFit make from until st w h =
      add_alerts-IsFit make (loop from until) st
        (All-map (λ t. (from ≤ t) × (t < until)) (λ t. should_be_ignored (make t) ≡ false) w
          (loop from until)
          (Every-All from from until (loop from until) (omega arith) (loop-Every from until)))
        h

  add_both-IsFit :
      (make also : ℕ → ExpectedAlert L) (l : List ℕ) (st : Expectations L)
      → All (λ t. (should_be_ignored (make t) ≡ false) × (should_be_ignored (also t) ≡ false)) l
      → IsFit st
      → IsFit (add_both make also l st)
  unfolding add_both
  add_both-IsFit make also [] st a h = h
  add_both-IsFit make also (t ∷ l) st a h =
      add_both-IsFit make also l _ a.1
        (add_alert-IsFit (also t) _ a.0.1 (add_alert-IsFit (make t) st a.0.0 h))

  pub loop_both-IsFit :
      (make also : ℕ → ExpectedAlert L) (from until : ℕ) (st : Expectations L)
      → ((t : ℕ)
          → (from ≤ t) × (t < until)
          → (should_be_ignored (make t) ≡ false) × (should_be_ignored (also t) ≡ false))
      → IsFit st
      → IsFit (add_both make also (loop from until) st)
  loop_both-IsFit make also from until st w h =
      add_both-IsFit make also (loop from until) st
        (All-map (λ t. (from ≤ t) × (t < until))
          (λ t. (should_be_ignored (make t) ≡ false) × (should_be_ignored (also t) ≡ false)) w
          (loop from until)
          (Every-All from from until (loop from until) (omega arith) (loop-Every from until)))
        h

  -- The state before the first loop.
  pub nothing-IsFit : IsFit (record { ordering_id = 0; exp = [] })
  nothing-IsFit = record { numbered = tt; as_many = refl; wanted = tt }
