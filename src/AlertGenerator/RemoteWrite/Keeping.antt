-- ===== src/AlertGenerator/RemoteWrite/Keeping.antt =====
-- alert_generator/remote_write.go: the rule for properties that every turn of the goroutine keeps.
use compliance.Base.{
  ◌≡◌, inl, inr, refl, Option-cases, List-cases, List, [], ◌∷◌, Option, none, some, Result, ok, err,
}
use compliance.AlertGenerator.RemoteWrite.{
  LabelledSample, take_batch, Remote, Writer, Phase, returned, Event, timer, stop_seen, read_error,
  send, send_if, write_request, write_batch, read, step, run,
}
use compliance.AlertGenerator.RemoteWrite.Turns.{
  stop_turn-cases, turn-cases, written, batched, write_batch_nil, write_batch_cons,
  write_request-cases, send_free, send_full, read_new, read_again,
}

-- A property that each change of the writer keeps: an error that is sent, the end of the loop, a
-- call of Error, a batch whose request cannot be built, and one whose request is written.
pub record IsKept {L V B W E : Type 0} (remote : Remote L V B W E) (P : Writer L V W E → Type 0)
    : Type 0 where
  pub sends : (e : E) (w : Writer L V W E) → P w → P (send e w)
  pub ends : (w : Writer L V W E) → P w → P (record w { phase = returned })
  pub reads : (w : Writer L V W E) → P w → P (read w)
  pub drops :
      (w : Writer L V W E) (x : LabelledSample L V) (rest : List (LabelledSample L V)) (e : E)
      → w.pending ≡ x ∷ rest
      → remote.build (take_batch x.s.timestamp (x ∷ rest)).0 ≡ err e
      → P w
      → P (batched remote x rest w)
  pub writes :
      (w : Writer L V W E) (x : LabelledSample L V) (rest : List (LabelledSample L V)) (buf : B)
      → w.pending ≡ x ∷ rest
      → remote.build (take_batch x.s.timestamp (x ∷ rest)).0 ≡ ok buf
      → P w
      → P (written remote buf (batched remote x rest w))

module _ {L V B W E : Type 0} (remote : Remote L V B W E) {P : Writer L V W E → Type 0}
    (kept : IsKept remote P) where
  send_if-keeps : (o : Option E) (w : Writer L V W E) → P w → P (send_if o w)
  unfolding send_if
  send_if-keeps none w h = h
  send_if-keeps (some e) w h = kept.sends e w h

  write_batch-keeps : (w : Writer L V W E) → P w → P (write_batch remote w)
  unfolding write_request
  write_batch-keeps w h = elim (List-cases w.pending) [
    | inl p ↦ rw (write_batch_nil remote w p) (kept.ends w h)
    | inr (x, rest, p) ↦ rw (write_batch_cons remote w p) (request x rest p _ refl)
  ]
    where
      request :
          (x : LabelledSample L V) (rest : List (LabelledSample L V))
          → w.pending ≡ x ∷ rest
          → (r : Result E B) → remote.build (take_batch x.s.timestamp (x ∷ rest)).0 ≡ r
          → P (write_request remote r (batched remote x rest w))
      request x rest p (err e) b = kept.sends e _ (kept.drops w x rest e p b h)
      request x rest p (ok buf) b =
          let passed = kept.writes w x rest buf p b h in
          elim (write_request-cases remote buf (batched remote x rest w)) [
            | inl (q, _) ↦ rw q (send_if-keeps _ _ passed)
            | inr (e, q, _) ↦ rw q (kept.sends e _ passed)
          ]

  step-keeps : (ev : Event) (w : Writer L V W E) → P w → P (step remote ev w)
  unfolding step
  step-keeps timer w h = elim (turn-cases remote w) [
    | inl (p, _) ↦ rw p (write_batch-keeps w h)
    | inr (inl (p, _)) ↦ rw p h
    | inr (inr (e, p, _)) ↦ rw p (kept.sends e w h)
  ]
  step-keeps stop_seen w h = elim (stop_turn-cases w) [
    | inl (p, _) ↦ rw p (kept.ends w h)
    | inr (inl (p, _)) ↦ rw p h
    | inr (inr (e, p, _)) ↦ rw p (kept.sends e w h)
  ]
  step-keeps read_error w h = kept.reads w h

  pub run-keeps : (events : List Event) (w : Writer L V W E) → P w → P (run remote events w)
  unfolding run
  run-keeps [] w h = h
  run-keeps (ev ∷ events) w h = run-keeps events (step remote ev w) (step-keeps ev w h)

-- `errc <- err` and Error change `phase`, `errc` and `error` only.
pub record IsBlind {L V W E : Type 0} (P : Writer L V W E → Type 0) : Type 0 where
  pub blind :
      (w : Writer L V W E) (p : Phase E) (c f : Option E)
      → P w
      → P (record w { phase = p; errc = c; error = f })

module _ {L V W E : Type 0} {P : Writer L V W E → Type 0} (b : IsBlind P) where
  pub send-blind : (e : E) (w : Writer L V W E) → P w → P (send e w)
  send-blind e w h = elim (Option-cases w.errc) [
    | inl p ↦ rw (send_free e w p) (b.blind w _ _ _ h)
    | inr (x, p) ↦ rw (send_full e w p) (b.blind w _ _ _ h)
  ]

  pub read-blind : (w : Writer L V W E) → P w → P (read w)
  read-blind w h = elim (Option-cases w.error) [
    | inl p ↦ rw (read_new w p) (b.blind w _ _ _ h)
    | inr (x, p) ↦ rw (read_again w p) h
  ]
