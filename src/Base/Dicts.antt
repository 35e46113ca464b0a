-- ===== src/Base/Dicts.antt =====
-- Go maps with string keys, as association lists. The order of the list stands for the order in
-- which `range` visits the keys, which Go leaves open.
use Prim.Native.String.{String}
use text.Mathlib.TextEquality.{eq_iff}
use mathlib.Core.Path.{◌≡◌, refl}
use mathlib.Core.Logic.{◌≢◌}
use mathlib.Core.Bool.{Bool, true, false}
use mathlib.Core.List.{List, [], ◌∷◌, ◌++◌}
use mathlib.Core.Option.{Option, none, some}
use native.Mathlib.Omega.{arith}
use compliance.Base.Lists.{All}
use compliance.Base.Tests.{str_eq, str_eq_refl, if◌then◌else◌}

abbrev pub Dict {ℓ} : Type ℓ → Type ℓ
Dict V = List (String × V)

module _ {ℓ} {V : Type ℓ} where
  unfoldable pub lookup : String → Dict V → Option V
  lookup k [] = none
  lookup k ((j, v) ∷ m) = if str_eq j k then some v else lookup k m

  -- `m[k] = v`: in place if the key is there, a new entry otherwise.
  unfoldable pub insert : String → V → Dict V → Dict V
  insert k v [] = (k, v) ∷ []
  insert k v ((j, w) ∷ m) = if str_eq j k then (j, v) ∷ m else (j, w) ∷ insert k v m

  -- `delete(m, k)`.
  unfoldable pub erase : String → Dict V → Dict V
  erase k [] = []
  erase k ((j, w) ∷ m) = let rest = erase k m in if str_eq j k then rest else (j, w) ∷ rest

  -- `_, ok := m[k]`.
  unfoldable pub contains : String → Dict V → Bool
  contains k [] = false
  contains k ((j, w) ∷ m) = if str_eq j k then true else contains k m

  pub lookup-insert :
      (set key : String) (new : V) (rest : Dict V)
      → lookup key (insert set new rest) ≡ (if str_eq set key then some new else lookup key rest)
  unfolding lookup insert
  lookup-insert set key new [] = refl
  lookup-insert set key new ((c, u) ∷ rest) =
      ground (arith, eq_iff set key, eq_iff c set, eq_iff c key, lookup-insert set key new rest)

  pub lookup-erase :
      (set key : String) (rest : Dict V)
      → lookup key (erase set rest) ≡ (if str_eq set key then none else lookup key rest)
  unfolding lookup erase
  lookup-erase set key [] = ground arith
  lookup-erase set key ((c, u) ∷ rest) =
      ground (arith, eq_iff set key, eq_iff c set, eq_iff c key, lookup-erase set key rest)

  pub contains-insert :
      (set key : String) (new : V) (rest : Dict V)
      → contains key (insert set new rest) ≡ (if str_eq set key then true else contains key rest)
  unfolding contains insert
  contains-insert set key new [] = refl
  contains-insert set key new ((c, u) ∷ rest) =
      ground (arith, eq_iff set key, eq_iff c set, eq_iff c key, contains-insert set key new rest)

  pub contains-erase :
      (set key : String) (rest : Dict V)
      → contains key (erase set rest) ≡ (if str_eq set key then false else contains key rest)
  unfolding contains erase
  contains-erase set key [] = ground arith
  contains-erase set key ((c, u) ∷ rest) =
      ground (arith, eq_iff set key, eq_iff c set, eq_iff c key, contains-erase set key rest)

  pub lookup_of_contains : (k : String) (m : Dict V) → contains k m ≡ true → lookup k m ≢ none
  unfolding contains lookup
  lookup_of_contains k [] h = cc
  lookup_of_contains k ((j, w) ∷ m) h = ground (arith, lookup_of_contains k m)

  pub lookup_of_not_contains : (k : String) (m : Dict V) → contains k m ≡ false → lookup k m ≡ none
  unfolding contains lookup
  lookup_of_not_contains k [] h = refl
  lookup_of_not_contains k ((j, w) ∷ m) h = ground (arith, lookup_of_not_contains k m)

  -- Each key stands once, as in a Go map.
  abbrev pub UniqueKeys : Dict V → Type 0
  UniqueKeys [] = Unit {0}
  UniqueKeys ((k, _) ∷ m) = (contains k m ≡ false) × UniqueKeys m

  pub UniqueKeys-erase : (k : String) (m : Dict V) → UniqueKeys m → UniqueKeys (erase k m)
  unfolding erase
  UniqueKeys-erase k [] h = tt
  UniqueKeys-erase k ((j, w) ∷ m) h = ground (arith, UniqueKeys-erase k m h.1, contains-erase k j m)

  contains_of_lookup : (k : String) (m : Dict V) {v : V} → lookup k m ≡ some v → contains k m ≡ true
  unfolding lookup contains
  contains_of_lookup k [] h = cc
  contains_of_lookup k ((j, w) ∷ m) {v} h = ground (arith, contains_of_lookup k m {v = v})

  -- A dictionary without keys is empty.
  pub empty_of_no_keys : (m : Dict V) → ((k : String) → contains k m ≡ false) → m ≡ []
  unfolding contains
  empty_of_no_keys [] h = refl
  empty_of_no_keys ((j, w) ∷ m) h = ground (arith, h j, str_eq_refl j)

  -- `contains` is whether `lookup` finds something.
  pub contains-lookup :
      (k : String) (m : Dict V) → contains k m ≡ elim (lookup k m) [ none ↦ false | some _ ↦ true ]
  unfolding contains lookup
  contains-lookup k [] = refl
  contains-lookup k ((j, w) ∷ m) = ground (arith, contains-lookup k m)

-- A set of strings as a Go map to `true`: `contains` reads it, and this adds names to it.
abbrev pub add_names : List String → Dict Bool → Dict Bool
add_names [] seen = seen
add_names (n ∷ ns) seen = add_names ns (insert n true seen)

-- The names are new to the set and new to one another.
abbrev pub AreFresh : Dict Bool → List String → Type 0
AreFresh seen [] = Unit {0}
AreFresh seen (n ∷ ns) = (contains n seen ≡ false) × AreFresh (insert n true seen) ns

pub AreFresh-append :
    (seen : Dict Bool) (ms ns : List String)
    → AreFresh seen ms
    → AreFresh (add_names ms seen) ns
    → AreFresh seen (ms ++ ns)
AreFresh-append seen [] ns h k = k
AreFresh-append seen (m ∷ ms) ns h k = (h.0, AreFresh-append (insert m true seen) ms ns h.1 k)

add_names-append :
    (seen : Dict Bool) (ms ns : List String)
    → add_names (ms ++ ns) seen ≡ add_names ns (add_names ms seen)
add_names-append seen [] ns = refl
add_names-append seen (m ∷ ms) ns = add_names-append (insert m true seen) ms ns

-- No name stands twice.
abbrev pub Distinct : List String → Type 0
Distinct [] = Unit {0}
Distinct (n ∷ ns) = All (λ m. n ≢ m) ns × Distinct ns

AreFresh-avoids :
    (k : String) (seen : Dict Bool) (ns : List String)
    → contains k seen ≡ true
    → AreFresh seen ns
    → All (λ m. k ≢ m) ns
AreFresh-avoids k seen [] c h = tt
AreFresh-avoids k seen (n ∷ ns) c h = (
  (λ e. cc (c, rw (← e) at h.0)),
  AreFresh-avoids k (insert n true seen) ns (ground (arith, contains-insert n k true seen)) h.1,
)

pub AreFresh-Distinct : (seen : Dict Bool) (ns : List String) → AreFresh seen ns → Distinct ns
AreFresh-Distinct seen [] h = tt
AreFresh-Distinct seen (n ∷ ns) h = (
  AreFresh-avoids n (insert n true seen) ns
      (ground (arith, contains-insert n n true seen, str_eq_refl n)) h.1,
  AreFresh-Distinct (insert n true seen) ns h.1,
)
