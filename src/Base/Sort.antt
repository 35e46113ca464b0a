-- ===== src/Base/Sort.antt =====
-- `sort.Slice`: insertion by a `less` test. Go leaves the order of equal elements open; here
-- they keep their order.
use Prim.Native.Nat.{ℕ, suc, ◌≤◌}
use mathlib.Core.Path.{◌≡◌}
use mathlib.Core.Bool.{Bool}
use mathlib.Core.List.{List, [], ◌∷◌, Perm}
use mathlib.Core.List.Perm
use native.Mathlib.Omega.{arith}
use compliance.Base.Tests.{ltb, if◌then◌else◌}
use compliance.Base.Lists.{All, length}

module _ {ℓ} {A : Type ℓ} (less : A → A → Bool) where
  -- `x` goes in front of the first element that is not less than `x`.
  unfoldable sort_insert : A → List A → List A
  sort_insert x [] = x ∷ []
  sort_insert x (y ∷ ys) = if less y x then y ∷ sort_insert x ys else x ∷ y ∷ ys

  unfoldable pub sort_slice : List A → List A
  unfolding sort_insert
  sort_slice [] = []
  sort_slice (x ∷ xs) = sort_insert x (sort_slice xs)

  sort_insert-perm : (x : A) (ys : List A) → Perm (sort_insert x ys) (x ∷ ys)
  unfolding sort_insert
  sort_insert-perm x [] = Perm.refl _
  sort_insert-perm x (y ∷ ys) = ground (
    arith,
    Perm.refl (x ∷ y ∷ ys),
    Perm.trans (Perm.cons y (sort_insert-perm x ys)) (Perm.swap x y ys),
  )

  pub sort_slice-perm : (xs : List A) → Perm (sort_slice xs) xs
  unfolding sort_slice
  sort_slice-perm [] = Perm.refl _
  sort_slice-perm (x ∷ xs) =
      Perm.trans (sort_insert-perm x (sort_slice xs)) (Perm.cons x (sort_slice-perm xs))

  length-sort_insert : (x : A) (ys : List A) → length (sort_insert x ys) ≡ suc (length ys)
  unfolding sort_insert
  length-sort_insert x [] = omega arith
  length-sort_insert x (y ∷ ys) = ground (arith, length-sort_insert x ys)

  pub length-sort_slice : (xs : List A) → length (sort_slice xs) ≡ length xs
  unfolding sort_slice
  length-sort_slice [] = omega arith
  length-sort_slice (x ∷ xs) =
      omega (arith, length-sort_insert x (sort_slice xs), length-sort_slice xs)

  All-sort_insert {κ} :
      (P : A → Type κ) (x : A) (ys : List A) → P x → All P ys → All P (sort_insert x ys)
  unfolding sort_insert
  All-sort_insert P x [] hx h = (hx, tt)
  All-sort_insert P x (y ∷ ys) hx h = ground (arith, All-sort_insert P x ys hx h.1)

  pub All-sort_slice {κ} : (P : A → Type κ) (xs : List A) → All P xs → All P (sort_slice xs)
  unfolding sort_slice
  All-sort_slice P [] h = tt
  All-sort_slice P (x ∷ xs) h = All-sort_insert P x (sort_slice xs) h.0 (All-sort_slice P xs h.1)

-- Sorted by a key: no element has a smaller key than one before it.
module _ {ℓ} {A : Type ℓ} (key : A → ℕ) where
  abbrev pub Above : ℕ → List A → Type 0
  Above n [] = Unit {0}
  Above n (x ∷ xs) = (n ≤ key x) × Above n xs

  abbrev pub IsSortedBy : List A → Type 0
  IsSortedBy [] = Unit {0}
  IsSortedBy (x ∷ xs) = Above (key x) xs × IsSortedBy xs

  Above-mono : (m n : ℕ) (xs : List A) → m ≤ n → Above n xs → Above m xs
  Above-mono m n [] h a = tt
  Above-mono m n (x ∷ xs) h a = (omega arith, Above-mono m n xs h a.1)

  abbrev by_key : A → A → Bool
  by_key a b = ltb (key a) (key b)

  sort_insert-Above :
      (n : ℕ) (x : A) (ys : List A) → n ≤ key x → Above n ys → Above n (sort_insert by_key x ys)
  unfolding sort_insert
  sort_insert-Above n x [] h a = (h, tt)
  sort_insert-Above n x (y ∷ ys) h a = ground (arith, sort_insert-Above n x ys h a.1)

  sort_insert-IsSortedBy :
      (x : A) (ys : List A) → IsSortedBy ys → IsSortedBy (sort_insert by_key x ys)
  unfolding sort_insert
  sort_insert-IsSortedBy x [] h = (tt, tt)
  sort_insert-IsSortedBy x (y ∷ ys) h = ground (
    arith,
    sort_insert-IsSortedBy x ys h.1,
    sort_insert-Above (key y) x ys,
    Above-mono (key x) (key y) ys,
  )

  pub sort_slice-IsSortedBy :
      (xs : List A) → IsSortedBy (sort_slice (λ a b. ltb (key a) (key b)) xs)
  unfolding sort_slice
  sort_slice-IsSortedBy [] = tt
  sort_slice-IsSortedBy (x ∷ xs) = sort_insert-IsSortedBy x _ (sort_slice-IsSortedBy xs)
