-- ===== src/AlertGenerator/Tests/Writers.antt =====
-- The remote writer on a queue of two series with three samples at two timestamps.
use compliance.Base.{
  All, false, join, err, ◌↔◌, ℕ, zero, suc, ◌≡◌, ◌≢◌, refl, List, [], ◌∷◌, Option, none, some, ok,
  length, sort_slice,
}
use compliance.AlertGenerator.Cases.Samples.{ProtoSample}
use compliance.AlertGenerator.RemoteWrite.{
  TimeSeries, LabelledSample, Queue, all_samples, remote_write, Remote, Writer, running, sending,
  timer, stop_seen, read_error, take_batch, read, step, run, start, await,
}
use mathlib.Core.List.{Perm}
use compliance.AlertGenerator.RemoteWrite.Flattening.{shifted_series}
use compliance.AlertGenerator.RemoteWrite.Retrying.{remote_write-Stops, Stops}
use compliance.AlertGenerator.RemoteWrite.Running.{IsInOrder, is_ok, run-IsInOrder}
use compliance.AlertGenerator.RemoteWrite.Waiting.{await-start}
use compliance.AlertGenerator.RemoteWrite.Finishing.{timers, IsDone, AllSucceed, run-start-IsDone}
use compliance.AlertGenerator.RemoteWrite.Reporting.{reported, AreTurns, run-reported, turns_hang}

abbrev sample_at : ℕ → ℕ → ProtoSample ℕ
sample_at t v = record { timestamp = t; value = v }

abbrev two_series : List (TimeSeries ℕ ℕ)
two_series =
    record { labels = 1; samples = sample_at 0 3 ∷ sample_at 15000 5 ∷ [] }
    ∷ record { labels = 2; samples = sample_at 0 7 ∷ [] }
    ∷ []

abbrev queue : Queue ℕ ℕ
queue = record { time_series = two_series; total_samples = 3 }

-- The outside counts the Stores. The first remote takes every request, the second one none.
abbrev healthy : Remote ℕ ℕ ℕ ℕ ℕ
healthy = record {
  build = λ series. ok (length series);
  store = λ buf v. (none, suc v);
  context_err = λ v. none;
}

abbrev broken : Remote ℕ ℕ ℕ ℕ ℕ
broken = record {
  build = λ series. ok (length series);
  store = λ buf v. (some v, suc v);
  context_err = λ v. none;
}

-- The samples at one time are one batch, and the next turn writes the later sample.
two_batches : (run healthy (timer ∷ timer ∷ []) (start 100 queue 0)).times_written ≡ 2
unfolding run step start all_samples sort_slice
two_batches = refl

run-IsInOrder_example :
    IsInOrder
      (all_samples 100 queue)
      (run broken (timer ∷ read_error ∷ timer ∷ []) (start 100 queue 0))
    × Perm (all_samples 100 queue) (shifted_series 100 queue.time_series)
run-IsInOrder_example = run-IsInOrder broken 100 queue 0 (timer ∷ read_error ∷ timer ∷ [])

-- A remote for which no request can be built: Start waits.
abbrev unbuildable : Remote ℕ ℕ ℕ ℕ ℕ
unbuildable = record healthy { build = λ series. err 7 }

await-start_example :
    (await unbuildable ((timer ∷ []) ∷ (timer ∷ []) ∷ []) (start 100 queue 0) ≡ none)
    ↔ All
        (λ series. is_ok (Remote.build unbuildable series) ≡ false)
        (run unbuildable (join ((timer ∷ []) ∷ (timer ∷ []) ∷ [])) (start 100 queue 0)).batches
await-start_example = await-start unbuildable 100 queue 0 ((timer ∷ []) ∷ (timer ∷ []) ∷ [])

still_waiting : await unbuildable ((timer ∷ []) ∷ (timer ∷ []) ∷ []) (start 100 queue 0) ≡ none
unfolding await run step start all_samples sort_slice
still_waiting = refl

abbrev healthy_succeeds : AllSucceed healthy
healthy_succeeds = record {
  builds = λ series. (length series, refl);
  stores = λ buf v. refl;
  lasts = λ v. refl;
}

run-start-IsDone_example :
    IsDone (run healthy (timers (suc (length (all_samples 100 queue)))) (start 100 queue 0))
run-start-IsDone_example = run-start-IsDone healthy healthy_succeeds 100 queue 0

-- A store that fails twice.
abbrev third_time : ℕ → Option ℕ × ℕ
third_time zero = (some 0, 1)
third_time (suc zero) = (some 1, 2)
third_time (suc (suc n)) = (none, suc (suc (suc n)))

remote_write-Stops_example : (n : ℕ) × Stops third_time 2 0 (remote_write third_time 0) n
remote_write-Stops_example = remote_write-Stops third_time 0

abbrev failed_once : Writer ℕ ℕ ℕ ℕ
failed_once = record {
  pending = [];
  batches = [];
  times_written = 1;
  phase = running;
  errc = some 5;
  error = none;
  world = 3;
}

reported_now : reported failed_once ≡ some 5
unfolding read
reported_now = refl

run-reported_example : reported (run broken (timer ∷ read_error ∷ []) failed_once) ≡ some 5
run-reported_example = run-reported broken 5 (timer ∷ read_error ∷ []) failed_once reported_now

abbrev labelled : ℕ → LabelledSample ℕ ℕ
labelled t = record { labels = 1; s = sample_at t 3 }

abbrev fresh : Writer ℕ ℕ ℕ ℕ
fresh = record {
  pending = labelled 100 ∷ labelled 15100 ∷ [];
  batches = [];
  times_written = 0;
  phase = running;
  errc = none;
  error = none;
  world = 0;
}

more_left : (take_batch 100 (labelled 100 ∷ labelled 15100 ∷ [])).1 ≢ []
unfolding take_batch
more_left h = cc

only_turns : AreTurns (stop_seen ∷ timer ∷ [])
only_turns = ((λ h. cc), ((λ h. cc), tt))

turns_hang_example :
    (e : ℕ) × ((run broken (timer ∷ timer ∷ stop_seen ∷ timer ∷ []) fresh).phase ≡ sending e)
turns_hang_example =
    turns_hang broken (λ buf v h. cc) (stop_seen ∷ timer ∷ []) fresh (labelled 100)
      (labelled 15100 ∷ []) only_turns refl more_left refl refl
