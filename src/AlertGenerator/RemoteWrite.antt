-- ===== src/AlertGenerator/RemoteWrite.antt =====
-- alert_generator/remote_write.go: the queue of series, the flattened and sorted samples, and the
-- writing goroutine as a state machine. A turn is one pass of its loop, or, when it waits at the
-- full channel `errc`, its next try to send. Waiting for the time of a sample changes no state and is left
-- out; which case the `select` takes after Stop is left to the event. Timestamps are milliseconds.
pub mod Turns
pub mod Keeping
pub mod Finishing
pub mod Flattening
pub mod Batching
pub mod Retrying
pub mod Running
pub mod Waiting
pub mod Reporting
use compliance.Base.{
  ℕ, zero, suc, ◌≡◌, ◌⊎◌, inl, inr, refl, ◌+◌, ◌==◌, ltb, Bool, true, false, List, [], ◌∷◌, ◌++◌,
  Option, none, some, if◌then◌else◌, length, Result, ok, err, sort_slice,
}
use compliance.AlertGenerator.Cases.Samples.{ProtoSample}

-- prompb.TimeSeries.
pub record TimeSeries (L V : Type 0) : Type 0 where
  pub labels : L
  pub samples : List (ProtoSample V)

-- sample.
pub record LabelledSample (L V : Type 0) : Type 0 where
  pub labels : L
  pub s : ProtoSample V

-- What AddTimeSeries fills.
pub record Queue (L V : Type 0) : Type 0 where
  pub time_series : List (TimeSeries L V)
  pub total_samples : ℕ

module _ {L V : Type 0} where
  -- The loop of AddTimeSeries.
  unfoldable count_samples : List (TimeSeries L V) → ℕ → ℕ
  count_samples [] total = total
  count_samples (ts ∷ rest) total = count_samples rest (total + length ts.samples)

  -- AddTimeSeries.
  unfoldable add_time_series : List (TimeSeries L V) → Queue L V → Queue L V
  unfolding count_samples
  add_time_series ts q = record {
    time_series = q.time_series ++ ts;
    total_samples = count_samples ts q.total_samples;
  }

  -- The inner loop that flattens a series, and the outer one.
  unfoldable flatten_samples :
      ℕ → L → List (ProtoSample V) → List (LabelledSample L V) → List (LabelledSample L V)
  flatten_samples now labels [] all = all
  flatten_samples now labels (s ∷ samples) all =
      flatten_samples now labels samples
        (all ++ record { labels = labels; s = record s { timestamp = s.timestamp + now } } ∷ [])

  unfoldable flatten :
      ℕ → List (TimeSeries L V) → List (LabelledSample L V) → List (LabelledSample L V)
  unfolding flatten_samples
  flatten now [] all = all
  flatten now (ts ∷ rest) all = flatten now rest (flatten_samples now ts.labels ts.samples all)

  -- The samples that Start hands to the goroutine.
  unfoldable pub all_samples : ℕ → Queue L V → List (LabelledSample L V)
  unfolding flatten
  all_samples now q =
      sort_slice (λ a b. ltb a.s.timestamp b.s.timestamp) (flatten now q.time_series [])

  -- A sample as a series of its own.
  abbrev series_of : LabelledSample L V → TimeSeries L V
  series_of x = record { labels = x.labels; samples = x.s ∷ [] }

  -- The batch of the samples at one timestamp, and what is left of the samples.
  unfoldable pub take_batch :
      ℕ → List (LabelledSample L V) → List (TimeSeries L V) × List (LabelledSample L V)
  take_batch t [] = ([], [])
  take_batch t (x ∷ rest) =
      let taken = take_batch t rest in
      if x.s.timestamp == t then (series_of x ∷ taken.0, taken.1) else ([], x ∷ rest)

-- The retries of remoteWrite that are left, after the answer of a Store.
unfoldable retry : {W E : Type 0} → ℕ → (W → Option E × W) → Option E × W → Option E × W
retry zero store answer = answer
retry (suc left) store (none, w) = (none, w)
retry (suc left) store (some e, w) = retry left store (store w)

-- remoteWrite: `tries < 3` lets two more Stores follow the first one.
unfoldable pub remote_write : {W E : Type 0} → (W → Option E × W) → W → Option E × W
unfolding retry
remote_write store w = retry 2 store (store w)

-- What the goroutine takes from other packages: buildWriteRequest (protobuf and snappy), the Store
-- of the client, and whether the context of a batch has ended. `W` is the state of the outside.
pub record Remote (L V B W E : Type 0) : Type 0 where
  pub build : List (TimeSeries L V) → Result E B
  pub store : B → W → Option E × W
  pub context_err : W → Option E

-- Whether the goroutine runs its loop, waits to send an error to `errc`, or has returned.
pub data Phase (E : Type 0) : Type 0 where
  running returned : Phase E
  sending : E → Phase E

Phase-cases :
    {E : Type 0} (p : Phase E) → (p ≡ running) ⊎ (p ≡ returned) ⊎ ((e : E) × (p ≡ sending e))
Phase-cases running = inl refl
Phase-cases returned = inr (inl refl)
Phase-cases (sending e) = inr (inr (e, refl))

-- The writer after Start. `pending` are the samples from `idx` on; `batches`, the batches that
-- the goroutine has made, is for the statements and is never read.
pub record Writer (L V W E : Type 0) : Type 0 where
  pub pending : List (LabelledSample L V)
  pub batches : List (List (TimeSeries L V))
  pub times_written : ℕ
  pub phase : Phase E
  pub errc : Option E
  pub error : Option E
  pub world : W

-- A turn of the goroutine whose `select` takes the timer, one whose `select` takes `stopc`, and a call
-- of Error.
pub data Event : Type 0 where
  timer stop_seen read_error : Event

module _ {L V W E : Type 0} where
  -- `errc <- err`: the channel holds one error.
  unfoldable send : E → Writer L V W E → Writer L V W E
  send e w = elim w.errc [
    | none ↦ record w { errc = some e; phase = running }
    | some _ ↦ record w { phase = sending e }
  ]

  unfoldable send_if : Option E → Writer L V W E → Writer L V W E
  unfolding send
  send_if none w = w
  send_if (some e) w = send e w

  -- Error.
  unfoldable pub read : Writer L V W E → Writer L V W E
  read w = elim w.error [ some _ ↦ w | none ↦ record w { error = w.errc; errc = none } ]

  unfoldable stop_turn : Writer L V W E → Writer L V W E
  unfolding send
  stop_turn w = elim w.phase [
    | running ↦ record w { phase = returned }
    | sending e ↦ send e w
    | returned ↦ w
  ]

  -- Start, at the time `now`, up to the first turn of the goroutine.
  unfoldable pub start : ℕ → Queue L V → W → Writer L V W E
  unfolding all_samples
  start now q world = record {
    pending = all_samples now q;
    batches = [];
    times_written = 0;
    phase = running;
    errc = none;
    error = none;
    world = world;
  }

module _ {L V B W E : Type 0} where
  -- After the request is built: it is written, and an error or the end of the context is sent.
  unfoldable write_request : Remote L V B W E → Result E B → Writer L V W E → Writer L V W E
  unfolding send send_if remote_write
  write_request remote (err e) w = send e w
  write_request remote (ok buf) w =
      let (failed, world) = remote_write (remote.store buf) w.world in
      let written = record w { times_written = w.times_written + 1; world = world } in
      elim failed [ some e ↦ send e written | none ↦ send_if (remote.context_err world) written ]

  -- A pass of the loop that takes the timer.
  unfoldable write_batch : Remote L V B W E → Writer L V W E → Writer L V W E
  unfolding take_batch write_request
  write_batch remote w = elim w.pending [
    | [] ↦ record w { phase = returned }
    | x ∷ rest ↦
        let (series, left) = take_batch x.s.timestamp (x ∷ rest) in
        write_request remote (remote.build series)
          (record w { pending = left; batches = w.batches ++ series ∷ [] })
  ]

  unfoldable pub turn : Remote L V B W E → Writer L V W E → Writer L V W E
  unfolding write_batch send
  turn remote w = elim w.phase [
    | running ↦ write_batch remote w
    | sending e ↦ send e w
    | returned ↦ w
  ]

  unfoldable pub step : Remote L V B W E → Event → Writer L V W E → Writer L V W E
  unfolding turn stop_turn read
  step remote timer w = turn remote w
  step remote stop_seen w = stop_turn w
  step remote read_error w = read w

  -- A run: any order of turns and calls of Error.
  unfoldable pub run : Remote L V B W E → List Event → Writer L V W E → Writer L V W E
  unfolding step
  run remote [] w = w
  run remote (e ∷ events) w = run remote events (step remote e w)

  -- The loop of Start that waits for the first write: each pass loads timesWritten and, while it is
  -- 0, sleeps, in which time `events` happen. It gives `none` when it still waits after the passes.
  unfoldable pub await :
      Remote L V B W E → List (List Event) → Writer L V W E → Option (Writer L V W E)
  unfolding run
  await remote [] w = if w.times_written == 0 then none else some w
  await remote (events ∷ passes) w =
      let rest = await remote passes (run remote events w) in
      if w.times_written == 0 then rest else some w
