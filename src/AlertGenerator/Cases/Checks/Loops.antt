-- ===== src/AlertGenerator/Cases/Checks/Loops.antt =====
-- The loops that the checks of alert_generator/cases/utils.go share.
use compliance.Base.{
  ◌≡◌, ◌↔◌, ◌≢◌, All, Bool-cases, refl, sym, ◌∙◌, Bool, true, false, List, [], ◌∷◌, ◌++◌, Option,
  none, some, In, here, there, arith, Option-cases, inl, inr,
}
use compliance.AlertGenerator.Cases.Checks.{check_any, first_error}

module _ {X E : Type 0} (stops : E → Bool) (check : X → Option E) where
  -- One of the expectations passes the check.
  abbrev pub Some : List X → Type 0
  Some xs = (x : X) × In x xs × (check x ≡ none)

  -- The check of an expectation does not panic.
  abbrev pub GoesOn : X → Type 0
  GoesOn x = (err : E) → check x ≡ some err → stops err ≡ false

  check_any_pass :
      (errs : List E) (x : X) (xs : List X)
      → check x ≡ none
      → check_any stops check errs (x ∷ xs) ≡ none
  unfolding check_any
  check_any_pass errs x xs e = ground (arith, e)

  check_any_fail :
      (errs : List E) (x : X) (xs : List X) {err : E}
      → check x ≡ some err
      → stops err ≡ false
      → check_any stops check errs (x ∷ xs) ≡ check_any stops check (errs ++ err ∷ []) xs
  unfolding check_any
  check_any_fail errs x xs e g = ground (arith, e, g)

  check_any_panic :
      (errs : List E) (x : X) (xs : List X) {err : E}
      → check x ≡ some err
      → stops err ≡ true
      → check_any stops check errs (x ∷ xs) ≢ none
  unfolding check_any
  check_any_panic errs x xs e g = ground (arith, e, g)

  Some-later : (x : X) (xs : List X) {err : E} → check x ≡ some err → Some (x ∷ xs) → Some xs
  Some-later x xs e (y, here, p) = cc
  Some-later x xs e (y, there i, p) = (y, i, p)

  pub check_any-Some :
      (errs : List E) (xs : List X) → check_any stops check errs xs ≡ none → Some xs
  unfolding check_any
  check_any-Some errs [] h = cc
  check_any-Some errs (x ∷ xs) h = elim (Option-cases (check x)) [
    | inl e ↦ (x, here, e)
    | inr (err, e) ↦ elim (Bool-cases (stops err)) [
      | inl g ↦ elim (check_any_panic errs x xs e g h) [ ]
      | inr g ↦
          let (y, i, p) =
            check_any-Some (errs ++ err ∷ []) xs (sym (check_any_fail errs x xs e g) ∙ h) in
          (y, there i, p)
    ]
  ]

  pub check_any_of_Some :
      (errs : List E) (xs : List X) → All GoesOn xs → Some xs → check_any stops check errs xs ≡ none
  check_any_of_Some errs [] g (x, i, p) = elim i [ ]
  check_any_of_Some errs (x ∷ xs) g s = elim (Option-cases (check x)) [
    | inl e ↦ check_any_pass errs x xs e
    | inr (err, e) ↦
        check_any_fail errs x xs e (g.0 err e)
        ∙ check_any_of_Some (errs ++ err ∷ []) xs g.1 (Some-later x xs e s)
  ]

-- The elements of the first list agree with those of the second, in order.
abbrev pub Along : {X Y : Type 0} → (X → Y → Type 0) → List X → List Y → Type 0
Along R [] ys = Unit {0}
Along R (x ∷ xs) [] = ⊥
Along R (x ∷ xs) (y ∷ ys) = R x y × Along R xs ys

pub first_error-Along :
    {X Y E : Type 0} (absent : E) (check : X → Y → Option E) (xs : List X) (ys : List Y)
    → (first_error absent check xs ys ≡ none) ↔ Along (λ x y. check x y ≡ none) xs ys
unfolding first_error
first_error-Along absent check [] ys = ((λ h. tt), (λ h. refl))
first_error-Along absent check (x ∷ xs) [] = ((λ h. cc), (λ h. elim h [ ]))
first_error-Along absent check (x ∷ xs) (y ∷ ys) =
    ground (arith, first_error-Along absent check xs ys, Option-cases (check x y))

pub Along-both :
    {X Y : Type 0} (P Q R : X → Y → Type 0)
    → ((x : X) (y : Y) → (P x y × Q x y) ↔ R x y)
    → (xs : List X) (ys : List Y) → (Along P xs ys × Along Q xs ys) ↔ Along R xs ys
Along-both P Q R both [] ys = ((λ h. tt), (λ h. (tt, tt)))
Along-both P Q R both (x ∷ xs) [] = ((λ h. elim h.0 [ ]), (λ h. elim h [ ]))
Along-both P Q R both (x ∷ xs) (y ∷ ys) =
    let rest = Along-both P Q R both xs ys in
    (
      (λ (h, k). ((both x y).0 (h.0, k.0), rest.0 (h.1, k.1))),
      (λ h. let (p, q) = (both x y).1 h.0 in let (ps, qs) = rest.1 h.1 in ((p, ps), (q, qs))),
    )
