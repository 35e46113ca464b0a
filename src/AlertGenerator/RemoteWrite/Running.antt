-- ===== src/AlertGenerator/RemoteWrite/Running.antt =====
-- alert_generator/remote_write.go: what the writing goroutine has done after any turns.
use mathlib.Core.List.{Perm}
use compliance.Base.{
  ℕ, ◌≡◌, refl, arith, Bool, true, false, List, [], ◌∷◌, ◌++◌, map, map-append, join, join_snoc,
  count_if, count_if-append, sort_slice-IsSortedBy, Result, ok, err,
}
use compliance.AlertGenerator.RemoteWrite.{
  LabelledSample, Queue, series_of, take_batch, all_samples, Remote, Writer, Event, run, start,
}
use compliance.AlertGenerator.RemoteWrite.Keeping.{
  IsKept, IsBlind, send-blind, read-blind, run-keeps,
}
use compliance.AlertGenerator.RemoteWrite.Flattening.{shifted_series, all_samples-perm}
use compliance.AlertGenerator.RemoteWrite.Batching.{timestamp_of, Batched, Batched-take_batch}

-- The request could be built.
abbrev pub is_ok : {E B : Type 0} → Result E B → Bool
is_ok (ok _) = true
is_ok (err _) = false

-- The samples of the batches and the pending ones are all samples, in their order.
abbrev pub IsInOrder : {L V W E : Type 0} → List (LabelledSample L V) → Writer L V W E → Type 0
IsInOrder {L} {V} all w =
    (groups : List (List (LabelledSample L V))) × (w.batches ≡ map (map series_of) groups)
    × (join groups ++ w.pending ≡ all)
    × Batched groups w.pending

module _ {L V W E : Type 0} (all : List (LabelledSample L V)) where
  batch-IsInOrder :
      (w : Writer L V W E) (x : LabelledSample L V) (rest : List (LabelledSample L V))
      → w.pending ≡ x ∷ rest
      → IsInOrder all w
      → IsInOrder all (record w {
        pending = (take_batch x.s.timestamp (x ∷ rest)).1;
        batches = w.batches ++ (take_batch x.s.timestamp (x ∷ rest)).0 ∷ [];
      })
  batch-IsInOrder w x rest p (groups, made, whole, b) =
      let (g, batch, split, b') = Batched-take_batch groups x rest (rw p at b) in
      (
        groups ++ g ∷ [],
        rw (made, batch, map-append) refl,
        rw (join_snoc groups g, split, ← p) whole,
        b',
      )

  IsInOrder-IsKept : {B : Type 0} (remote : Remote L V B W E) → IsKept remote (IsInOrder all)
  IsInOrder-IsKept remote = record {
    sends = send-blind blindness;
    ends = λ w h. h;
    reads = read-blind blindness;
    drops = λ w x rest e p b h. batch-IsInOrder w x rest p h;
    writes = λ w x rest buf p b h. batch-IsInOrder w x rest p h;
  }
    where
      blindness : IsBlind {W = W} {E = E} (IsInOrder all)
      blindness = record { blind = λ w p c f h. h }

-- However the turns of the goroutine, the sight of Stop, failing requests and calls of Error follow
-- one another after Start, the batches made so far and the samples still pending are all samples
-- in their sorted order: none is skipped, sent twice or sent before an earlier one. No batch is
-- empty, the samples of a batch have one timestamp, and every sample that comes after the batch,
-- in a later batch or pending, has a later one. All samples are a permutation of the samples of the
-- queued series, each moved to the time of Start.
pub run-IsInOrder :
    {L V B W E : Type 0} (remote : Remote L V B W E) (now : ℕ) (q : Queue L V) (world : W)
    (events : List Event)
    → IsInOrder (all_samples now q) (run remote events (start now q world))
      × Perm (all_samples now q) (shifted_series now q.time_series)
unfolding start all_samples
run-IsInOrder {L} {V} {E = E} remote now q world events = (
  run-keeps remote (IsInOrder-IsKept (all_samples now q) remote) events (start now q world)
      ([], refl, refl, sort_slice-IsSortedBy timestamp_of _),
  all_samples-perm now q,
)

-- However the turns follow one another, timesWritten counts the batches whose request could be
-- built.
pub run-times_written :
    {L V B W E : Type 0} (remote : Remote L V B W E) (now : ℕ) (q : Queue L V) (world : W)
    (events : List Event)
    → let w = run remote events (start now q world) in
      w.times_written ≡ count_if (λ series. is_ok (remote.build series)) w.batches
unfolding start
run-times_written {L} {V} {W = W} {E = E} remote now q world events =
    run-keeps remote kept events (start now q world) refl
  where
    IsCounted : Writer L V W E → Type 0
    IsCounted w = w.times_written ≡ count_if (λ series. is_ok (remote.build series)) w.batches

    blindness : IsBlind IsCounted
    blindness = record { blind = λ w p c f h. h }

    kept : IsKept remote IsCounted
    kept = record {
      sends = send-blind blindness;
      ends = λ w h. h;
      reads = read-blind blindness;
      drops = λ w x rest e p b h. ground (
        arith,
        count_if-append (λ series. is_ok (remote.build series)) w.batches
            ((take_batch x.s.timestamp (x ∷ rest)).0 ∷ []),
      );
      writes = λ w x rest buf p b h. ground (
        arith,
        count_if-append (λ series. is_ok (remote.build series)) w.batches
            ((take_batch x.s.timestamp (x ∷ rest)).0 ∷ []),
      );
    }
