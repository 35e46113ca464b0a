-- ===== src/AlertGenerator/RemoteWrite/Waiting.antt =====
-- alert_generator/remote_write.go: when Start returns.
use compliance.Base.{
  ℕ, ◌≡◌, ◌≢◌, ◌↔◌, refl, sym, ◌∙◌, arith, Bool, false, List, [], ◌∷◌, ◌++◌, none, join, count_if,
  All, Bool-cases,
}
use compliance.AlertGenerator.RemoteWrite.{Queue, Remote, Writer, Event, run, start, await}
use compliance.AlertGenerator.RemoteWrite.Keeping.{
  IsKept, IsBlind, send-blind, read-blind, run-keeps,
}
use compliance.AlertGenerator.RemoteWrite.Running.{is_ok, run-times_written}

count_if-zero :
    {X : Type 0} (p : X → Bool) (xs : List X) → (count_if p xs ≡ 0) ↔ All (λ x. p x ≡ false) xs
count_if-zero p [] = ground arith
count_if-zero p (x ∷ xs) = ground (arith, count_if-zero p xs, Bool-cases (p x))

module _ {L V B W E : Type 0} (remote : Remote L V B W E) where
  run-append :
      (front back : List Event) (w : Writer L V W E)
      → run remote (front ++ back) w ≡ run remote back (run remote front w)
  unfolding run
  run-append [] back w = refl
  run-append (e ∷ front) back w = run-append front back _

  -- Once a batch is written, timesWritten is never 0 again.
  run-written :
      (events : List Event) (w : Writer L V W E)
      → w.times_written ≢ 0
      → (run remote events w).times_written ≢ 0
  run-written events w h = run-keeps remote kept events w h
    where
      HasWritten : Writer L V W E → Type 0
      HasWritten v = v.times_written ≢ 0

      blindness : IsBlind HasWritten
      blindness = record { blind = λ v p c f k. k }

      kept : IsKept remote HasWritten
      kept = record {
        sends = send-blind blindness;
        ends = λ v k. k;
        reads = read-blind blindness;
        drops = λ v x rest e p b k. k;
        writes = λ v x rest buf p b k. ground arith;
      }

  await-none :
      (passes : List (List Event)) (w : Writer L V W E)
      → (await remote passes w ≡ none) ↔ ((run remote (join passes) w).times_written ≡ 0)
  unfolding await run
  await-none [] w = ground arith
  await-none (events ∷ passes) w = ground (
    arith,
    await-none passes (run remote events w),
    run-append events (join passes) w,
    run-written events w,
    run-written (join passes) (run remote events w),
  )

-- Start waits until timesWritten is not 0: however the turns of the goroutine, the sight of Stop
-- and calls of Error fall between the passes of its loop, it still waits after them exactly if the
-- request of none of the batches made by then could be built; whether writing them succeeds does
-- not matter.
pub await-start :
    {L V B W E : Type 0} (remote : Remote L V B W E) (now : ℕ) (q : Queue L V) (world : W)
    (passes : List (List Event))
    → (await remote passes (start now q world) ≡ none)
      ↔ All
          (λ series. is_ok (remote.build series) ≡ false)
          (run remote (join passes) (start now q world)).batches
await-start remote now q world passes =
    let w = run remote (join passes) (start now q world) in
    let counted = run-times_written remote now q world (join passes) in
    let none_built = count_if-zero (λ series. is_ok (remote.build series)) w.batches in
    let waits = await-none remote passes (start now q world) in
    ((λ h. none_built.0 (sym counted ∙ waits.0 h)), (λ k. waits.1 (counted ∙ none_built.1 k)))
