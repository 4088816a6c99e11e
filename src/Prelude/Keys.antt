-- ===== src/Prelude/Keys.antt =====
-- `Vec<Pubkey>` used as a set: pushing a new key, and removing the first place of a key.
use Prim.Native.Nat.{ℕ, zero, suc}
use mathlib.Core.Path.{◌≡◌, refl, ap}
use mathlib.Core.Bool.{true, false, not, ◌&&◌, ◌||◌}
use mathlib.Core.Logic.{inl, inr}
use mathlib.Core.Option.{Option, none, some}
use mathlib.Core.List.{List, [], ◌∷◌, ◌++◌}
use native.Mathlib.Omega.{arith}
use enrg.Prelude.Tests.{◌==◌, if◌then◌else◌, Bool-cases}
use enrg.Prelude.Lists.{length, contains, distinct}

abbrev pub push {ℓ} : {A : Type ℓ} → List A → A → List A
push xs x = xs ++ (x ∷ [])

-- `iter().position(|x| *x == k)`
unfoldable pub position : ℕ → List ℕ → Option ℕ
position k [] = none
position k (x ∷ xs) =
    if x == k then some 0 else elim (position k xs) [ none ↦ none | some i ↦ some (suc i) ]

-- `Vec::remove`, within the list's length.
unfoldable pub remove_at : ℕ → List ℕ → List ℕ
remove_at i [] = []
remove_at zero (x ∷ xs) = xs
remove_at (suc i) (x ∷ xs) = x ∷ remove_at i xs

pub contains-push : (j k : ℕ) (xs : List ℕ) → contains j (push xs k) ≡ (k == j) || contains j xs
unfolding contains
contains-push j k [] = refl
contains-push j k (x ∷ xs) = ground (arith, contains-push j k xs)

pub distinct-push :
    (k : ℕ) (xs : List ℕ) → distinct xs ≡ true → contains k xs ≡ false → distinct (push xs k) ≡ true
unfolding contains distinct
distinct-push k [] h fresh = refl
distinct-push k (x ∷ xs) h fresh = ground (arith, distinct-push k xs, contains-push x k xs)

pub length-push : (xs : List ℕ) (k : ℕ) → length (push xs k) ≡ suc (length xs)
length-push [] k = refl
length-push (x ∷ xs) k = ap suc (length-push xs k)

-- Without the key there is no position, and conversely.
pub position-none : (k : ℕ) (xs : List ℕ) → position k xs ≡ none → contains k xs ≡ false
unfolding contains position
position-none k [] h = refl
position-none k (x ∷ xs) h = ground (arith, position-none k xs)

-- Removing the position of a key of a list without repetitions removes the key, and nothing else.
pub contains-remove_at :
    (j k i : ℕ) (xs : List ℕ)
    → distinct xs ≡ true
    → position k xs ≡ some i
    → contains j (remove_at i xs) ≡ not (k == j) && contains j xs
unfolding contains distinct position remove_at
contains-remove_at j k i [] h e = absurd (ground arith)
contains-remove_at j k zero (x ∷ xs) h e = elim (Bool-cases (k == j)) [
  | inl same ↦ let j_is_x : j ≡ x = ground arith in ground (arith, ap (λ y. contains y xs) j_is_x)
  | inr other ↦ ground arith
]
contains-remove_at j k (suc i) (x ∷ xs) h e = ground (arith, contains-remove_at j k i xs)

pub distinct-remove_at :
    (k i : ℕ) (xs : List ℕ)
    → distinct xs ≡ true
    → position k xs ≡ some i
    → distinct (remove_at i xs) ≡ true
unfolding contains distinct position remove_at
distinct-remove_at k i [] h e = refl
distinct-remove_at k zero (x ∷ xs) h e = ground arith
distinct-remove_at k (suc i) (x ∷ xs) h e =
    ground (arith, distinct-remove_at k i xs, contains-remove_at x k i xs)

pub length-remove_at :
    (k i : ℕ) (xs : List ℕ) → position k xs ≡ some i → suc (length (remove_at i xs)) ≡ length xs
unfolding position remove_at
length-remove_at k i [] e = absurd (ground arith)
length-remove_at k zero (x ∷ xs) e = refl
length-remove_at k (suc i) (x ∷ xs) e = ground (arith, length-remove_at k i xs)
