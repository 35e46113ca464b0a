-- ===== src/AlertGenerator/RemoteWrite/Turns.antt =====
-- alert_generator/remote_write.go: the cases of a turn, as equations.
use compliance.Base.{◌+◌, ◌≡◌, ◌⊎◌, arith, Option-cases, List, [], ◌∷◌, ◌++◌, none, some, ok}
use compliance.AlertGenerator.RemoteWrite.{
  LabelledSample, take_batch, remote_write, Remote, Writer, Phase-cases, running, returned, sending,
  send, send_if, write_request, write_batch, read, turn, stop_turn,
}

-- An equation of a value that is a case decides an `elim` on it.
module _ {L V W E : Type 0} where
  pub send_free :
      (e : E) (w : Writer L V W E)
      → w.errc ≡ none
      → send e w ≡ record w { errc = some e; phase = running }
  unfolding send
  send_free e w p = ground arith

  pub send_full :
      (e : E) (w : Writer L V W E) {x : E}
      → w.errc ≡ some x
      → send e w ≡ record w { phase = sending e }
  unfolding send
  send_full e w p = ground arith

  pub read_new :
      (w : Writer L V W E) → w.error ≡ none → read w ≡ record w { error = w.errc; errc = none }
  unfolding read
  read_new w p = ground arith

  pub read_again : (w : Writer L V W E) {x : E} → w.error ≡ some x → read w ≡ w
  unfolding read
  read_again w p = ground arith

  pub stop_turn-cases :
      (w : Writer L V W E)
      → (stop_turn w ≡ record w { phase = returned }) × (w.phase ≡ running)
        ⊎ (stop_turn w ≡ w) × (w.phase ≡ returned)
        ⊎ ((e : E) × (stop_turn w ≡ send e w) × (w.phase ≡ sending e))
  unfolding stop_turn
  stop_turn-cases w = ground (arith, Phase-cases w.phase)

module _ {L V B W E : Type 0} (remote : Remote L V B W E) where
  pub turn-cases :
      (w : Writer L V W E)
      → (turn remote w ≡ write_batch remote w) × (w.phase ≡ running)
        ⊎ (turn remote w ≡ w) × (w.phase ≡ returned)
        ⊎ ((e : E) × (turn remote w ≡ send e w) × (w.phase ≡ sending e))
  unfolding turn
  turn-cases w = ground (arith, Phase-cases w.phase)

  -- The writer after the batch is taken from the samples.
  abbrev pub batched :
      LabelledSample L V → List (LabelledSample L V) → Writer L V W E → Writer L V W E
  batched x rest w = record w {
    pending = (take_batch x.s.timestamp (x ∷ rest)).1;
    batches = w.batches ++ (take_batch x.s.timestamp (x ∷ rest)).0 ∷ [];
  }

  pub write_batch_nil :
      (w : Writer L V W E) → w.pending ≡ [] → write_batch remote w ≡ record w { phase = returned }
  unfolding write_batch
  write_batch_nil w p = ground arith

  pub write_batch_cons :
      (w : Writer L V W E) {x : LabelledSample L V} {rest : List (LabelledSample L V)}
      → w.pending ≡ x ∷ rest
      → write_batch remote w
        ≡ write_request remote
            (remote.build (take_batch x.s.timestamp (x ∷ rest)).0)
            (batched x rest w)
  unfolding write_batch
  write_batch_cons w p = ground arith

  -- The writer after the request, before an error is sent.
  abbrev pub written : B → Writer L V W E → Writer L V W E
  written buf w = record w {
    times_written = w.times_written + 1;
    world = (remote_write (remote.store buf) w.world).1;
  }

  pub write_request-cases :
      (buf : B) (w : Writer L V W E)
      → (write_request remote (ok buf) w
            ≡ send_if
                (remote.context_err (remote_write (remote.store buf) w.world).1)
                (written buf w))
          × ((remote_write (remote.store buf) w.world).0 ≡ none)
        ⊎ ((e : E) × (write_request remote (ok buf) w ≡ send e (written buf w))
            × ((remote_write (remote.store buf) w.world).0 ≡ some e))
  unfolding write_request
  write_request-cases buf w =
      ground (arith, Option-cases (remote_write (remote.store buf) w.world).0)
