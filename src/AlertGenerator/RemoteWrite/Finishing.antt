-- ===== src/AlertGenerator/RemoteWrite/Finishing.antt =====
-- alert_generator/remote_write.go: the end of the loop when every request succeeds.
use compliance.Base.{
  ℕ, zero, suc, ◌≤◌, ◌<◌, ◌≡◌, ◌∙◌, ap, inl, inr, refl, arith, List-cases, List, [], ◌∷◌, length,
  Option, none, ok,
}
use compliance.AlertGenerator.RemoteWrite.{
  TimeSeries, LabelledSample, take_batch, remote_write, Remote, Writer, running, returned, Queue,
  all_samples, Event, timer, send_if, write_request, turn, step, run, start,
}
use compliance.AlertGenerator.RemoteWrite.Turns.{
  read_new, written, batched, write_batch_nil, write_batch_cons, write_request-cases,
}
use compliance.AlertGenerator.RemoteWrite.Retrying.{remote_write_succeeds}
use compliance.AlertGenerator.RemoteWrite.Reporting.{reported}

-- `n` passes of the loop that take the timer.
abbrev pub timers : ℕ → List Event
timers zero = []
timers (suc n) = timer ∷ timers n

-- The loop has ended with all samples written and nothing to report.
abbrev pub IsDone : {L V W E : Type 0} → Writer L V W E → Type 0
IsDone v = (v.phase ≡ returned) × (v.pending ≡ []) × (reported v ≡ none)

length-take_batch :
    {L V : Type 0} (t : ℕ) (xs : List (LabelledSample L V)) → length (take_batch t xs).1 ≤ length xs
unfolding take_batch
length-take_batch t [] = omega arith
length-take_batch t (x ∷ xs) = ground (arith, length-take_batch t xs)

length-take_batch_cons :
    {L V : Type 0} (x : LabelledSample L V) (xs : List (LabelledSample L V))
    → length (take_batch x.s.timestamp (x ∷ xs)).1 ≤ length xs
unfolding take_batch
length-take_batch_cons x xs = ground (arith, length-take_batch x.s.timestamp xs)

-- Every request can be built, each Store succeeds, and no context ends.
pub record AllSucceed {L V B W E : Type 0} (remote : Remote L V B W E) : Type 0 where
  pub builds : (series : List (TimeSeries L V)) → (buf : B) × (remote.build series ≡ ok buf)
  pub stores : (buf : B) (v : W) → (remote.store buf v).0 ≡ none
  pub lasts : (v : W) → remote.context_err v ≡ none

module _ {L V B W E : Type 0} (remote : Remote L V B W E) (good : AllSucceed remote) where
  write_request_good :
      (buf : B) (w : Writer L V W E) → write_request remote (ok buf) w ≡ written remote buf w
  unfolding send_if
  write_request_good buf w = elim (write_request-cases remote buf w) [
    | inl (p, _) ↦ ground (arith, good.lasts (remote_write (remote.store buf) w.world).1)
    | inr (e, _, p) ↦
        let done =
          ap (λ (r : Option E × W). r.0)
            (remote_write_succeeds (remote.store buf) w.world (good.stores buf w.world)) in
        cc (done, good.stores buf w.world, p)
  ]

  turn_good :
      (w : Writer L V W E) (x : LabelledSample L V) (rest : List (LabelledSample L V))
      → w.phase ≡ running
      → w.pending ≡ x ∷ rest
      → (buf : B) × (turn remote w ≡ written remote buf (batched remote x rest w))
  unfolding turn
  turn_good w x rest r p =
      let (buf, b) = good.builds (take_batch x.s.timestamp (x ∷ rest)).0 in
      (
        buf,
        ground
            (arith, write_batch_cons remote w p, write_request_good buf (batched remote x rest w)),
      )

  turn_ended :
      (w : Writer L V W E)
      → w.phase ≡ running
      → w.pending ≡ []
      → turn remote w ≡ record w { phase = returned }
  unfolding turn
  turn_ended w r p = ground (arith, write_batch_nil remote w p)

  run-suc :
      (n : ℕ) (w : Writer L V W E)
      → run remote (timers (suc n)) w ≡ run remote (timers n) (turn remote w)
  unfolding run step
  run-suc n w = refl

  run_returned : (n : ℕ) (w : Writer L V W E) → w.phase ≡ returned → run remote (timers n) w ≡ w
  unfolding run step turn
  run_returned zero w h = refl
  run_returned (suc n) w h =
      let stays : turn remote w ≡ w = ground arith in
      ap (run remote (timers n)) stays ∙ run_returned n w h

  run-IsDone :
      (n : ℕ) (w : Writer L V W E)
      → length w.pending < n
      → w.phase ≡ running
      → w.errc ≡ none
      → w.error ≡ none
      → IsDone (run remote (timers n) w)
  unfolding run
  run-IsDone zero w h r c e = absurd (omega arith)
  run-IsDone (suc n) w h r c e = elim (List-cases w.pending) [
    | inl p ↦
        rw (run-suc n w, turn_ended w r p, run_returned n (record w { phase = returned }) refl)
          (refl, p, ap Writer.error (read_new (record w { phase = returned }) e) ∙ c)
    | inr (x, rest, p) ↦
        let (buf, passed) = turn_good w x rest r p in
        rw (run-suc n w, passed)
          (run-IsDone n (written remote buf (batched remote x rest w))
            (omega (arith, length-take_batch_cons x rest, ap length p)) r c e)
  ]

  -- When every request can be built, every Store succeeds and no context ends, one turn more than
  -- there are samples is enough: the goroutine has returned, no sample is pending and Error returns
  -- nil.
  pub run-start-IsDone :
      (now : ℕ) (q : Queue L V) (world : W)
      → IsDone (run remote (timers (suc (length (all_samples now q)))) (start now q world))
  unfolding start
  run-start-IsDone now q world =
      run-IsDone (suc (length (all_samples now q))) (start now q world) (omega arith) refl refl refl
