-- ===== src/AlertGenerator/RemoteWrite/Reporting.antt =====
-- alert_generator/remote_write.go: the errors of the writing goroutine, and Error.
use compliance.Base.{
  ◌≡◌, ◌≢◌, ◌∙◌, ap, ◌⊎◌, ◌↔◌, inl, inr, refl, arith, Option-cases, List-cases, List, [], ◌∷◌, All,
  Option, none, some, Result, ok, err,
}
use compliance.AlertGenerator.RemoteWrite.{
  LabelledSample, take_batch, Remote, Writer, running, sending, Event, timer, stop_seen, read_error,
  send, write_request, read, turn, stop_turn, step, run,
}
use compliance.AlertGenerator.RemoteWrite.Turns.{
  send_free, send_full, written, batched, write_batch_cons, write_request-cases,
}
use compliance.AlertGenerator.RemoteWrite.Keeping.{IsKept, run-keeps}
use compliance.AlertGenerator.RemoteWrite.Retrying.{remote_write_fails}

-- What Error returns.
abbrev pub reported : {L V W E : Type 0} → Writer L V W E → Option E
reported w = (read w).error

module _ {L V W E : Type 0} (e : E) where
  -- `e` has been read, or it is the one that is read next.
  abbrev IsReported : Writer L V W E → Type 0
  IsReported w = (w.error ≡ some e) ⊎ (w.error ≡ none) × (w.errc ≡ some e)

  IsReported-reported : (w : Writer L V W E) → IsReported w ↔ (reported w ≡ some e)
  unfolding read
  IsReported-reported w = ground (arith, Option-cases w.error)

  send-IsReported : (x : E) (w : Writer L V W E) → IsReported w → IsReported (send x w)
  unfolding send
  send-IsReported x w h = ground (arith, Option-cases w.errc)

  read-IsReported : (w : Writer L V W E) → IsReported w → IsReported (read w)
  unfolding read
  read-IsReported w h = ground (arith, Option-cases w.error)

module _ {L V B W E : Type 0} (remote : Remote L V B W E) (e : E) where
  IsReported-IsKept : IsKept remote (IsReported e)
  IsReported-IsKept = record {
    sends = send-IsReported e;
    ends = λ w h. h;
    reads = read-IsReported e;
    drops = λ w x rest y p b h. h;
    writes = λ w x rest buf p b h. h;
  }

  -- Once Error would return an error, it returns that same error after any further turns of the
  -- goroutine, failures and calls of Error.
  pub run-reported :
      (events : List Event) (w : Writer L V W E)
      → reported w ≡ some e
      → reported (run remote events w) ≡ some e
  run-reported events w h =
      (IsReported-reported e (run remote events w)).0
        (run-keeps remote IsReported-IsKept events w ((IsReported-reported e w).1 h))

-- Every event is a turn of the goroutine: Error is not called.
abbrev pub AreTurns : List Event → Type 0
AreTurns events = All (λ ev. ev ≢ read_error) events

module _ {L V B W E : Type 0} (remote : Remote L V B W E) where
  -- An error in hand and another one in the channel: no turn changes anything.
  step-hangs :
      (ev : Event) (w : Writer L V W E) {e x : E}
      → ev ≢ read_error
      → w.phase ≡ sending e
      → w.errc ≡ some x
      → step remote ev w ≡ w
  unfolding step turn stop_turn send
  step-hangs timer w t p q = ground arith
  step-hangs stop_seen w t p q = ground arith
  step-hangs read_error w t p q = absurd (t refl)

  run-hangs :
      (events : List Event) (w : Writer L V W E) {e x : E}
      → AreTurns events
      → w.phase ≡ sending e
      → w.errc ≡ some x
      → run remote events w ≡ w
  unfolding run
  run-hangs [] w t p q = refl
  run-hangs (ev ∷ events) w {e} {x} t p q =
      rw (step-hangs ev w t.0 p q) (run-hangs events w t.1 p q)

  module _ (fails : (buf : B) (v : W) → (remote.store buf v).0 ≢ none) where
    -- What a pass of the loop leaves before it sends its error.
    write_request_fails :
        (request : Result E B) (w : Writer L V W E)
        → (e : E) × (v : Writer L V W E) × (write_request remote request w ≡ send e v)
          × (v.pending ≡ w.pending)
          × (v.errc ≡ w.errc)
    unfolding write_request
    write_request_fails (err e) w = (e, w, refl, refl, refl)
    write_request_fails (ok buf) w = elim (write_request-cases remote buf w) [
      | inl (_, p) ↦ absurd (remote_write_fails (remote.store buf) (fails buf) w.world p)
      | inr (e, p, _) ↦ (e, written remote buf w, p, refl, refl)
    ]

    -- A turn in the loop that finds the channel empty fills it; one that finds it full waits.
    turn_fills :
        (w : Writer L V W E) {x : LabelledSample L V} {rest : List (LabelledSample L V)}
        → w.pending ≡ x ∷ rest
        → w.phase ≡ running
        → w.errc ≡ none
        → (e : E) × ((turn remote w).errc ≡ some e)
          × ((turn remote w).phase ≡ running)
          × ((turn remote w).pending ≡ (take_batch x.s.timestamp (x ∷ rest)).1)
    unfolding turn
    turn_fills w {x} {rest} p r q =
        let (e, v, eq, left, free) =
          write_request_fails (remote.build (take_batch x.s.timestamp (x ∷ rest)).0)
            (batched remote x rest w) in
        let passed = write_batch_cons remote w p ∙ (eq ∙ send_free e v (free ∙ q)) in
        (e, ground arith, ground arith, ground arith)

    turn_waits :
        (w : Writer L V W E) {x : LabelledSample L V} {rest : List (LabelledSample L V)} {y : E}
        → w.pending ≡ x ∷ rest
        → w.phase ≡ running
        → w.errc ≡ some y
        → (e : E) × ((turn remote w).errc ≡ some y) × ((turn remote w).phase ≡ sending e)
    unfolding turn
    turn_waits w {x} {rest} p r q =
        let (e, v, eq, left, full) =
          write_request_fails (remote.build (take_batch x.s.timestamp (x ∷ rest)).0)
            (batched remote x rest w) in
        let passed = write_batch_cons remote w p ∙ (eq ∙ send_full e v (full ∙ q)) in
        (e, ground arith, ground arith)

    -- When every Store fails and the pending samples have two timestamps, the goroutine gets stuck
    -- in its second batch, at the channel that holds one error: whatever turns follow, those that
    -- see Stop too, it never returns until Error is called. The command calls Error only after
    -- Wait, which waits for the goroutine.
    pub turns_hang :
        (events : List Event) (w : Writer L V W E) (x : LabelledSample L V)
        (rest : List (LabelledSample L V))
        → AreTurns events
        → w.pending ≡ x ∷ rest
        → (take_batch x.s.timestamp (x ∷ rest)).1 ≢ []
        → w.phase ≡ running
        → w.errc ≡ none
        → (e : E) × ((run remote (timer ∷ timer ∷ events) w).phase ≡ sending e)
    unfolding run step
    turns_hang events w x rest t p more r q =
        elim (List-cases (take_batch x.s.timestamp (x ∷ rest)).1) [
          | inl none_left ↦ absurd (more none_left)
          | inr (y, others, left) ↦
              let (e, full, goes_on, pending) = turn_fills w p r q in
              let (f, still, waits) = turn_waits (turn remote w) (pending ∙ left) goes_on full in
              (
                f,
                ap Writer.phase (run-hangs events (turn remote (turn remote w)) t waits still)
                    ∙ waits,
              )
        ]
