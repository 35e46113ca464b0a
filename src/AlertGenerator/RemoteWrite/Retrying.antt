-- ===== src/AlertGenerator/RemoteWrite/Retrying.antt =====
-- alert_generator/remote_write.go: remoteWrite.
use compliance.Base.{
  ℕ, zero, suc, ◌≤◌, ◌<◌, ◌≡◌, ◌≢◌, ◌⊎◌, inl, inr, refl, arith, Option-cases, Option, none, some,
}
use compliance.AlertGenerator.RemoteWrite.{retry, remote_write}

module _ {W E : Type 0} (store : W → Option E × W) where
  -- The answer of the Store after `n` others, and the outside after it.
  abbrev attempt : ℕ → W → Option E × W
  attempt zero w = store w
  attempt (suc n) w = attempt n (store w).1

  -- The result is that of the attempt `n`: each one before it failed, and it succeeded or was the
  -- last that is allowed.
  abbrev pub Stops : ℕ → W → Option E × W → ℕ → Type 0
  Stops last w result n =
      (n ≤ last)
      × (result ≡ attempt n w)
      × ((k : ℕ) → k < n → (attempt k w).0 ≢ none)
      × ((attempt n w).0 ≡ none ⊎ n ≡ last)

  retry-some :
      (left : ℕ) (a : Option E × W) {e : E}
      → a.0 ≡ some e
      → retry (suc left) store a ≡ retry left store (store a.1)
  unfolding retry
  retry-some left (none, w) h = cc
  retry-some left (some e, w) h = refl

  retry-none : (left : ℕ) (a : Option E × W) → a.0 ≡ none → retry left store a ≡ a
  unfolding retry
  retry-none zero a h = refl
  retry-none (suc left) (none, w) h = refl
  retry-none (suc left) (some e, w) h = cc

  retry-Stops : (left : ℕ) (w : W) → (n : ℕ) × Stops left w (retry left store (store w)) n
  unfolding retry
  retry-Stops zero w = (0, (omega arith, refl, (λ k h. absurd (omega arith)), inr refl))
  retry-Stops (suc left) w = elim (Option-cases (store w).0) [
    | inl p ↦
        (0, (omega arith, retry-none (suc left) (store w) p, (λ k h. absurd (omega arith)), inl p))
    | inr (e, p) ↦
        let (n, (few, result, failed, last)) = retry-Stops left (store w).1 in
        (
          suc n,
          (
            omega arith,
            rw (retry-some left (store w) p) result,
            failed_before n e p failed,
            elim last [ inl q ↦ inl q | inr q ↦ inr (omega arith) ],
          ),
        )
  ]
    where
      failed_before :
          (n : ℕ) (e : E)
          → (store w).0 ≡ some e
          → ((k : ℕ) → k < n → (attempt k (store w).1).0 ≢ none)
          → (k : ℕ) → k < suc n
          → (attempt k w).0 ≢ none
      failed_before n e p failed zero h = cc p
      failed_before n e p failed (suc k) h = failed k (omega arith)

  -- remoteWrite calls Store at most three times, one call after the other; its result and the
  -- outside that it leaves are those of the last call. Each call before that one failed, and the
  -- last one succeeded or was the third.
  pub remote_write-Stops : (w : W) → (n : ℕ) × Stops 2 w (remote_write store w) n
  unfolding remote_write
  remote_write-Stops w = retry-Stops 2 w

  -- When no Store succeeds, the request fails.
  pub remote_write_fails :
      ((v : W) → (store v).0 ≢ none) → (w : W) → (remote_write store w).0 ≢ none
  remote_write_fails fails w =
      let (n, (_, result, _, _)) = remote_write-Stops w in rw result (attempt_fails n w)
    where
      attempt_fails : (n : ℕ) (v : W) → (attempt n v).0 ≢ none
      attempt_fails zero v = fails v
      attempt_fails (suc n) v = attempt_fails n (store v).1

  -- When a Store succeeds, the request does, and it leaves what that Store leaves.
  pub remote_write_succeeds : (w : W) → (store w).0 ≡ none → remote_write store w ≡ store w
  unfolding remote_write
  remote_write_succeeds w p = retry-none 2 (store w) p
