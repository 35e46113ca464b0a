-- ===== src/Base/Lists.antt =====
-- Lists measured by native numbers, predicates on lists, and tests that look a list through.
use Prim.Native.Nat.{ℕ, suc, ◌+◌}
use mathlib.Core.Path.{◌≡◌, refl, sym, ap, ◌∙◌}
use mathlib.Core.Bool.{Bool, true, false}
use mathlib.Core.Bool.{Bool}
use mathlib.Core.List.{List, [], ◌∷◌, ◌++◌, map, append-nil, append_assoc}
use compliance.Base.Tests.{if◌then◌else◌}
use mathlib.Core.Logic.{◌⊎◌, inl, inr}
use mathlib.Core.Option.{Option, none, some}
use native.Mathlib.Omega.{arith}

module _ {ℓ} {A : Type ℓ} where
  abbrev pub length : List A → ℕ
  length [] = 0
  length (x ∷ xs) = suc (length xs)

  pub length-append : (xs ys : List A) → length (xs ++ ys) ≡ length xs + length ys
  length-append [] ys = omega arith
  length-append (x ∷ xs) ys = omega (arith, length-append xs ys)

  abbrev pub is_empty : List A → Bool
  is_empty [] = true
  is_empty (_ ∷ _) = false

-- Each element has the property; this computes to a tuple.
abbrev pub All {ℓ κ} : {X : Type ℓ} → (X → Type κ) → List X → Type κ
All holds (a ∷ l) = holds a × All holds l
All holds [] = Unit

pub All-map {ℓ κ μ} :
    {A : Type ℓ} (P : A → Type κ) (Q : A → Type μ) (step : (a : A) → P a → Q a) (l : List A)
    → All P l
    → All Q l
All-map P Q step [] all = tt
All-map P Q step (a ∷ l) all = (step a all.0, All-map P Q step l all.1)

pub All-append {ℓ κ} :
    {A : Type ℓ} (P : A → Type κ) (front back : List A)
    → All P front
    → All P back
    → All P (front ++ back)
All-append P [] back left right = right
All-append P (a ∷ front) back left right = (left.0, All-append P front back left.1 right)

-- `x` stands in the list, as a value that can be matched.
pub data In {ℓ} {A : Type ℓ} (x : A) : List A → Type ℓ where
  here : {xs : List A} → In x (x ∷ xs)
  there : {y : A} {xs : List A} → In x xs → In x (y ∷ xs)

All-In {ℓ κ} : {A : Type ℓ} (P : A → Type κ) {x : A} (xs : List A) → All P xs → In x xs → P x
All-In P [] h m = elim m [ ]
All-In P (x ∷ xs) h here = h.0
All-In P (x ∷ xs) h (there m) = All-In P xs h.1 m

module _ {ℓ} {A : Type ℓ} where
  -- How many elements pass a test.
  abbrev pub count_if : (A → Bool) → List A → ℕ
  count_if p [] = 0
  count_if p (x ∷ xs) = let rest = count_if p xs in if p x then suc rest else rest

  pub count_if-append :
      (p : A → Bool) (xs ys : List A) → count_if p (xs ++ ys) ≡ count_if p xs + count_if p ys
  count_if-append p [] ys = omega arith
  count_if-append p (x ∷ xs) ys = ground (arith, count_if-append p xs ys)

  -- The second list goes on where the first one ends.
  abbrev pub Prefix : List A → List A → Type ℓ
  Prefix xs ys = (zs : List A) × (ys ≡ xs ++ zs)

  pub Prefix-refl : (xs : List A) → Prefix xs xs
  Prefix-refl xs = ([], sym (append-nil xs))

  pub Prefix-trans : (xs ys zs : List A) → Prefix xs ys → Prefix ys zs → Prefix xs zs
  Prefix-trans xs ys zs (a, p) (b, q) = (a ++ b, q ∙ ap (λ l. l ++ b) p ∙ append_assoc xs a b)

  pub Prefix-snoc : (xs : List A) (y : A) → Prefix xs (xs ++ y ∷ [])
  Prefix-snoc xs y = (y ∷ [], refl)

pub All-self {ℓ} : {A : Type ℓ} (l : List A) → All (λ a. In a l) l
All-self [] = tt
All-self (a ∷ l) = (here, All-map (λ b. In b l) (λ b. In b (a ∷ l)) (λ b i. there i) l (All-self l))

module _ {ℓ κ} {A : Type ℓ} (P : A → Type κ) where
  pub All-left : (front back : List A) → All P (front ++ back) → All P front
  All-left [] back all = tt
  All-left (a ∷ front) back all = (all.0, All-left front back all.1)

  pub All-right : (front back : List A) → All P (front ++ back) → All P back
  All-right [] back all = all
  All-right (a ∷ front) back all = All-right front back all.1

-- The list behind a Go map entry; a missing entry is nil, the empty list.
abbrev pub or_nil {ℓ} : {A : Type ℓ} → Option (List A) → List A
or_nil none = []
or_nil (some l) = l

module _ {ℓ} {A : Type ℓ} where
  pub In-append_left : {x : A} (xs ys : List A) → In x xs → In x (xs ++ ys)
  In-append_left [] ys i = elim i [ ]
  In-append_left (x ∷ xs) ys here = here
  In-append_left (x ∷ xs) ys (there i) = there (In-append_left xs ys i)

  pub In-append_right : {x : A} (xs ys : List A) → In x ys → In x (xs ++ ys)
  In-append_right [] ys i = i
  In-append_right (x ∷ xs) ys i = there (In-append_right xs ys i)

-- A list of lists as one list.
abbrev pub join {ℓ} : {A : Type ℓ} → List (List A) → List A
join [] = []
join (l ∷ ls) = l ++ join ls

pub join_snoc {ℓ} :
    {A : Type ℓ} (ls : List (List A)) (l rest : List A)
    → join (ls ++ l ∷ []) ++ rest ≡ join ls ++ (l ++ rest)
join_snoc [] l rest = grind (arith, append_assoc)
join_snoc (m ∷ ls) l rest = grind (arith, append_assoc, join_snoc ls l rest)

length-map {ℓ κ} :
    {A : Type ℓ} {C : Type κ} (f : A → C) (xs : List A) → length (map f xs) ≡ length xs
length-map f [] = omega arith
length-map f (x ∷ xs) = omega (arith, length-map f xs)

pub List-cases {ℓ} :
    {A : Type ℓ} (l : List A) → (l ≡ []) ⊎ ((x : A) × (rest : List A) × (l ≡ x ∷ rest))
List-cases [] = inl refl
List-cases (x ∷ rest) = inr (x, rest, refl)
