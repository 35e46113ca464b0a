-- ===== src/AlertGenerator/RemoteWrite/Batching.antt =====
-- alert_generator/remote_write.go: the batches of the writing loop.
use compliance.Base.{
  ℕ, ◌==◌, ◌<◌, ◌≡◌, ◌≢◌, inl, inr, refl, arith, Bool-cases, List, [], ◌∷◌, ◌++◌, map, All, join,
  join_snoc, Above, IsSortedBy,
}
use compliance.AlertGenerator.RemoteWrite.{LabelledSample, series_of, take_batch}

module _ {L V : Type 0} where
  abbrev pub timestamp_of : LabelledSample L V → ℕ
  timestamp_of x = x.s.timestamp

  -- The batch `taken`, in terms of samples.
  take_batch-taken :
      (t : ℕ) (xs : List (LabelledSample L V))
      → (taken : List (LabelledSample L V)) × ((take_batch t xs).0 ≡ map series_of taken)
        × (taken ++ (take_batch t xs).1 ≡ xs)
        × All (λ x. timestamp_of x ≡ t) taken
  unfolding take_batch
  take_batch-taken t [] = ([], refl, refl, tt)
  take_batch-taken t (x ∷ rest) =
      let (taken, batch, whole, same) = take_batch-taken t rest in
      elim (Bool-cases (x.s.timestamp == t)) [
        | inl e ↦ (x ∷ taken, ground arith, ground arith, ground arith)
        | inr e ↦ ([], ground arith, ground arith, tt)
      ]

  -- The samples are sorted and none is earlier than `t`.
  abbrev IsFrom : ℕ → List (LabelledSample L V) → Type 0
  IsFrom t xs = IsSortedBy timestamp_of xs × Above timestamp_of t xs

  abbrev IsAfter : ℕ → List (LabelledSample L V) → Type 0
  IsAfter t xs = All (λ x. t < timestamp_of x) xs

  Above-IsAfter :
      (t n : ℕ) (xs : List (LabelledSample L V)) → t < n → Above timestamp_of n xs → IsAfter t xs
  Above-IsAfter t n [] h a = tt
  Above-IsAfter t n (x ∷ xs) h a = (omega arith, Above-IsAfter t n xs h a.1)

  take_batch-left :
      (t : ℕ) (xs : List (LabelledSample L V))
      → IsFrom t xs
      → IsSortedBy timestamp_of (take_batch t xs).1 × IsAfter t (take_batch t xs).1
  unfolding take_batch
  take_batch-left t [] h = (tt, tt)
  take_batch-left t (x ∷ rest) ((above, sorted), from) = elim (Bool-cases (x.s.timestamp == t)) [
    | inl e ↦ ground (arith, take_batch-left t rest (sorted, from.1))
    | inr e ↦
        let later : t < timestamp_of x = ground arith in
        ground (arith, Above-IsAfter t (timestamp_of x) rest later above)
  ]

  -- Each group is not empty, its samples have one timestamp, and all samples after it, those of the
  -- later groups and the pending ones, are later.
  abbrev pub Batched : List (List (LabelledSample L V)) → List (LabelledSample L V) → Type 0
  Batched [] pending = IsSortedBy timestamp_of pending
  Batched (g ∷ groups) pending =
      (g ≢ [])
      × ((t : ℕ) × All (λ x. timestamp_of x ≡ t) g × IsAfter t (join groups ++ pending))
      × Batched groups pending

  Batched-snoc :
      (groups : List (List (LabelledSample L V))) (g pending left : List (LabelledSample L V))
      (t : ℕ)
      → g ≢ []
      → All (λ x. timestamp_of x ≡ t) g
      → g ++ left ≡ pending
      → IsSortedBy timestamp_of left
      → IsAfter t left
      → Batched groups pending
      → Batched (groups ++ g ∷ []) left
  Batched-snoc [] g pending left t ne same whole sorted after b = (ne, (t, same, after), sorted)
  Batched-snoc (f ∷ groups) g pending left t ne same whole sorted after (nf, (u, at, later), b) = (
    nf,
    (u, at, rw (join_snoc groups g left, whole) later),
    Batched-snoc groups g pending left t ne same whole sorted after b,
  )

  -- The pending samples stay sorted.
  Batched-IsSortedBy :
      (groups : List (List (LabelledSample L V))) (pending : List (LabelledSample L V))
      → Batched groups pending
      → IsSortedBy timestamp_of pending
  Batched-IsSortedBy [] pending b = b
  Batched-IsSortedBy (g ∷ groups) pending (_, _, b) = Batched-IsSortedBy groups pending b

  -- The next batch is a group of its own.
  pub Batched-take_batch :
      (groups : List (List (LabelledSample L V))) (x : LabelledSample L V)
      (rest : List (LabelledSample L V))
      → Batched groups (x ∷ rest)
      → (g : List (LabelledSample L V)) × ((take_batch x.s.timestamp (x ∷ rest)).0
          ≡ map series_of g)
        × (g ++ (take_batch x.s.timestamp (x ∷ rest)).1 ≡ x ∷ rest)
        × Batched (groups ++ g ∷ []) (take_batch x.s.timestamp (x ∷ rest)).1
  Batched-take_batch groups x rest b =
      let t = x.s.timestamp in
      let (g, batch, whole, same) = take_batch-taken t (x ∷ rest) in
      let (above, sorted) = Batched-IsSortedBy groups (x ∷ rest) b in
      let (left_sorted, after) =
        take_batch-left t (x ∷ rest) ((above, sorted), (omega arith, above)) in
      let ne : g ≢ [] =
        λ e. let later : IsAfter t (x ∷ rest) = ground arith in omega (arith, later.0) in
      (g, batch, whole, Batched-snoc groups g (x ∷ rest) _ t ne same whole left_sorted after b)
