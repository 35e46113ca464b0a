-- ===== src/PromQl/TestCases/Variants.antt =====
-- getVariants of promql/testcases/expand.go against the cartesian product of the values of its arguments.
use compliance.Base.{
  ℕ, zero, suc, ◌*◌, ◌≤◌, ◌≡◌, ◌≢◌, refl, ap, ◌∙◌, fun_ext, String, Bool, true, false, List, [],
  ◌∷◌, ◌++◌, arith, str_eq, str_eq_iff, str_eq_refl, if◌then◌else◌, is_empty, length, ok, err,
  Result, Result-cases, ◌>>=◌, inl, inr, All, Distinct,
}
use compliance.PromQl.TestCases.{
  variants, Args, set_arg, Failure, Expanded, filtered_args, for_values, get_variants, Templates,
  tprintf, single,
}

-- The names stand in the list.
abbrev elem : String → List String → Bool
elem k [] = false
elem k (n ∷ ns) = if str_eq n k then true else elem k ns

-- The arguments agree outside the names.
abbrev Agree : List String → Args → Args → Type 0
Agree names a b = (k : String) → elem k names ≡ false → a k ≡ b k

-- One list after the other, for each value.
abbrev flat_map : {X : Type 0} → (String → List X) → List String → List X
flat_map f [] = []
flat_map f (x ∷ xs) = f x ++ flat_map f xs

abbrev pub IsKnown : String → Type 0
IsKnown n = is_empty (variants n) ≡ false

-- The number of combinations.
abbrev pub combinations : List String → ℕ
combinations [] = 1
combinations (n ∷ ns) = length (variants n) * combinations ns

-- Every combination of values for the names, the first name varying slowest.
abbrev assignments : List String → Args → List Args
assignments [] args = args ∷ []
assignments (n ∷ ns) args = flat_map (λ v. assignments ns (set_arg n v args)) (variants n)

-- The query of each combination, up to the first one whose template panics.
abbrev expand_all : (Args → Result Failure String) → List Args → Result Failure (List String)
expand_all print [] = ok []
expand_all print (a ∷ rest) = print a >>= λ q. expand_all print rest >>= λ qs. ok (q ∷ qs)

expand_all-append :
    (print : Args → Result Failure String) (front back : List Args)
    → expand_all print (front ++ back)
      ≡ (expand_all print front >>= λ qs. expand_all print back >>= λ rs. ok (qs ++ rs))
expand_all-append print [] back = elim (Result-cases (expand_all print back)) [
  | inl (rs, e) ↦ rw e refl
  | inr (f, e) ↦ rw e refl
]
expand_all-append print (a ∷ front) back = ground (
  arith,
  expand_all-append print front back,
  Result-cases (print a),
  Result-cases (expand_all print front),
  Result-cases (expand_all print back),
)

set_arg-Agree :
    (n v : String) (ns : List String) (a b : Args)
    → Agree (n ∷ ns) a b
    → Agree ns (set_arg n v a) (set_arg n v b)
unfolding set_arg
set_arg-Agree n v ns a b h k e = ground (arith, h k)

-- The values that the names had before do not matter.
assignments-Agree :
    (ns : List String) (a b : Args) → Agree ns a b → assignments ns a ≡ assignments ns b
assignments-Agree [] a b h = ap (λ c. c ∷ []) (fun_ext (λ k. h k refl))
assignments-Agree (n ∷ ns) a b h =
    ap (λ f. flat_map f (variants n))
      (fun_ext (λ v. assignments-Agree ns _ _ (set_arg-Agree n v ns a b h)))

set_arg-outside :
    (n v : String) (ns : List String) (a b : Args) → Agree ns (set_arg n v a) b → Agree (n ∷ ns) a b
unfolding set_arg
set_arg-outside n v ns a b h k e = ground (arith, h k)

Agree-trans : (ns : List String) (a b c : Args) → Agree ns a b → Agree ns b c → Agree ns a c
Agree-trans ns a b c h g k e = h k e ∙ g k e

-- A run that produces the queries, changing no argument outside the names, or panics in the same
-- way.
abbrev Produces : List String → Result Failure (List String) → Args → Expanded → Type 0
Produces ns (ok queries) args r = (a' : Args) × (r ≡ ok (queries, a')) × Agree ns args a'
Produces ns (err e) args r = r ≡ err e

module _ (print : Args → Result Failure String) (n : String) (ns : List String)
    (rec : Args → Expanded)
    (each : (a : Args) → Produces ns (expand_all print (assignments ns a)) a (rec a)) where
  -- The combinations with the values `vs` of `n`.
  abbrev with_values : Args → List String → List Args
  with_values args vs = flat_map (λ v. assignments ns (set_arg n v args)) vs

  with_values-Agree :
      (args a : Args) (vs : List String)
      → Agree (n ∷ ns) args a
      → with_values args vs ≡ with_values a vs
  with_values-Agree args a vs h =
      ap (λ f. flat_map f vs)
        (fun_ext (λ w. assignments-Agree ns _ _ (set_arg-Agree n w ns args a h)))

  -- The run after the first value, joined to that of the first value.
  later-Produces :
      (v : String) (vs : List String) (args a₁ : Args) (qs : List String)
      (rest : Result Failure (List String))
      → rec (set_arg n v args) ≡ ok (qs, a₁)
      → Agree (n ∷ ns) args a₁
      → Produces (n ∷ ns) rest a₁ (for_values rec n vs a₁)
      → Produces (n ∷ ns) (rest >>= λ rs. ok (qs ++ rs)) args (for_values rec n (v ∷ vs) args)
  unfolding for_values
  later-Produces v vs args a₁ qs (ok rs) e₁ g₁ (a₂, e₂, g₂) =
      (a₂, rw e₁ (rw e₂ refl), Agree-trans (n ∷ ns) args a₁ a₂ g₁ g₂)
  later-Produces v vs args a₁ qs (err f) e₁ g₁ e₂ = rw e₁ (rw e₂ refl)

  first_panics :
      (v : String) (vs : List String) (args : Args) (f : Failure)
      → rec (set_arg n v args) ≡ err f
      → for_values rec n (v ∷ vs) args ≡ err f
  unfolding for_values
  first_panics v vs args f e = rw e refl

  for_values-Produces :
      (vs : List String) (args : Args)
      → Produces (n ∷ ns) (expand_all print (with_values args vs)) args (for_values rec n vs args)
  unfolding for_values
  for_values-Produces [] args = (args, refl, λ k e. refl)
  for_values-Produces (v ∷ vs) args =
      let first = assignments ns (set_arg n v args) in
      let split = expand_all-append print first (with_values args vs) in
      let made : Produces ns (expand_all print first) (set_arg n v args) (rec (set_arg n v args)) =
        each (set_arg n v args) in
      elim (Result-cases (expand_all print first)) [
        | inl (qs, e) ↦
            let (a₁, e₁, g₁) = rw e at made in
            let outside = set_arg-outside n v ns args a₁ g₁ in
            let same = with_values-Agree args a₁ vs outside in
            rw (split, e, same)
              (later-Produces v vs args a₁ qs _ e₁ outside (for_values-Produces vs a₁))
        | inr (f, e) ↦ rw (split, e) (first_panics v vs args f (rw e at made))
      ]

filtered_args-distinct :
    (n : String) (ns : List String) → All (λ m. n ≢ m) ns → filtered_args n ns ≡ ns
unfolding filtered_args
filtered_args-distinct n [] h = refl
filtered_args-distinct n (m ∷ ns) h =
    ground (arith, str_eq_iff m n, filtered_args-distinct n ns h.1)

filtered_args_self :
    (n : String) (ns : List String) → All (λ m. n ≢ m) ns → filtered_args n (n ∷ ns) ≡ ns
unfolding filtered_args
filtered_args_self n ns h = rw (str_eq_refl n) (filtered_args-distinct n ns h)

queries-Produces :
    (names : List String) (queries : Result Failure (List String)) (args : Args) (r : Expanded)
    → Produces names queries args r
    → (r >>= λ x. ok x.0) ≡ queries
queries-Produces names (ok qs) args r (a', e, g) = rw e refl
queries-Produces names (err f) args r e = rw e refl

module _ {T : Type 0} (templates : Templates T) where
  -- The query of each combination of values for the names.
  abbrev pub product : String → List String → Args → Result Failure (List String)
  product query names args = expand_all (tprintf templates query) (assignments names args)

  single-Produces :
      (query : String) (args : Args)
      → Produces [] (product query [] args) args (single templates query args)
  single-Produces query args = elim (Result-cases (tprintf templates query args)) [
    | inl (q, e) ↦ rw e (args, refl, λ j p. refl)
    | inr (f, e) ↦ rw e refl
  ]

  get_variants-Produces :
      (fuel : ℕ) (query : String) (names : List String) (args : Args)
      → length names ≤ fuel
      → Distinct names
      → All IsKnown names
      → Produces names
          (product query names args)
          args
          (get_variants templates fuel query names args)
  unfolding get_variants
  get_variants-Produces zero query [] args l d k = single-Produces query args
  get_variants-Produces zero query (n ∷ ns) args l d k = absurd (omega arith)
  get_variants-Produces (suc fuel) query [] args l d k = single-Produces query args
  get_variants-Produces (suc fuel) query (n ∷ ns) args l d k =
      rw (k.0, filtered_args_self n ns d.0)
        (for_values-Produces (tprintf templates query) n ns (get_variants templates fuel query ns)
          (λ a. get_variants-Produces fuel query ns a (omega arith) d.1 k.1) (variants n) args)

  -- For distinct, known arguments, and any map of arguments to start from, getVariants with at
  -- least as much fuel as there are arguments is the expansion of the template for each
  -- combination of values in turn, the first argument varying slowest, although all calls write to
  -- one map: it returns the queries if the template expands for every combination, and panics as
  -- tprintf does for the first one for which it does not.
  pub get_variants-product :
      (fuel : ℕ) (query : String) (names : List String) (args : Args)
      → length names ≤ fuel
      → Distinct names
      → All IsKnown names
      → (get_variants templates fuel query names args >>= λ r. ok r.0) ≡ product query names args
  get_variants-product fuel query names args l d k =
      queries-Produces names (product query names args) args
        (get_variants templates fuel query names args)
        (get_variants-Produces fuel query names args l d k)
