-- ===== src/Merkle/Tree.antt =====
-- The publisher's tree against the check of the program: the proof of a leaf leads to the root.
use enrg.Prelude.{
  ℕ, zero, suc, ◌+◌, ◌/◌, ◌^◌, ◌≤◌, ◌<◌, ◌≡◌, refl, sym, ap, ◌∙◌, arith, some, List, [], ◌∷◌, ◌++◌,
  length, u8_max,
}
use native.Mathlib.Nat.{pow-suc}
use enrg.Solana.{Bytes, zero_hash}
use enrg.Merkle.{climb, compute_merkle_root, next_level, climb_levels, build_merkle_root}

-- The node at an index of a level.
unfoldable pub node_at : List Bytes → ℕ → Bytes
node_at [] i = zero_hash
node_at (x ∷ xs) zero = x
node_at (x ∷ xs) (suc i) = node_at xs i

-- The node with which the tree pairs it: its neighbour, or itself when it is the odd last one.
unfoldable pub sibling_at : List Bytes → ℕ → Bytes
sibling_at [] i = zero_hash
sibling_at (x ∷ []) i = x
sibling_at (l ∷ r ∷ xs) zero = r
sibling_at (l ∷ r ∷ xs) (suc zero) = l
sibling_at (l ∷ r ∷ xs) (suc (suc i)) = sibling_at xs i

-- The siblings on the way from a node to the root, with the fuel of `climb_levels`.
unfoldable pub path_from : ℕ → List Bytes → ℕ → List Bytes
unfolding sibling_at
path_from fuel [] i = []
path_from fuel (x ∷ []) i = []
path_from zero (l ∷ r ∷ xs) i = []
path_from (suc fuel) (l ∷ r ∷ xs) i =
    sibling_at (l ∷ r ∷ xs) i ∷ path_from fuel (next_level (l ∷ r ∷ xs)) (i / 2)

unfoldable pub proof_path : List Bytes → ℕ → List Bytes
unfolding path_from
proof_path [] i = []
proof_path (x ∷ xs) i = path_from (length xs) (x ∷ xs) i

length-next_level : (xs : List Bytes) → length (next_level xs) ≡ (length xs + 1) / 2
unfolding next_level
length-next_level [] = refl
length-next_level (x ∷ []) = refl
length-next_level (l ∷ r ∷ xs) = omega (arith, length-next_level xs)

climb_parity : (a b : Bytes) (i : ℕ) → climb a b (suc (suc i)) ≡ climb a b i
unfolding climb
climb_parity a b i = ground arith

halve : (i : ℕ) → suc (suc i) / 2 ≡ suc (i / 2)
halve i = omega arith

-- One round on a node and its sibling gives their parent.
climb-node_at :
    (xs : List Bytes) (i : ℕ)
    → i < length xs
    → climb (node_at xs i) (sibling_at xs i) i ≡ node_at (next_level xs) (i / 2)
unfolding node_at sibling_at next_level climb
climb-node_at [] i h = absurd (omega arith)
climb-node_at (x ∷ []) zero h = refl
climb-node_at (x ∷ []) (suc i) h = absurd (omega arith)
climb-node_at (l ∷ r ∷ xs) zero h = refl
climb-node_at (l ∷ r ∷ xs) (suc zero) h = refl
climb-node_at (l ∷ r ∷ xs) (suc (suc i)) h =
    climb_parity (node_at xs i) (sibling_at xs i) i
    ∙ climb-node_at xs i (omega arith)
    ∙ sym (ap (node_at (next_level (l ∷ r ∷ xs))) (halve i))

-- With fuel for its levels the tree has a root, and each node climbs to it.
path_from-root :
    (fuel : ℕ) (xs : List Bytes) (i : ℕ)
    → i < length xs
    → length xs ≤ suc fuel
    → climb_levels fuel xs ≡ some (compute_merkle_root (node_at xs i) (path_from fuel xs i) i)
unfolding climb_levels compute_merkle_root path_from node_at
path_from-root fuel [] i h enough = absurd (omega arith)
path_from-root fuel (x ∷ []) zero h enough = refl
path_from-root fuel (x ∷ []) (suc i) h enough = absurd (omega arith)
path_from-root zero (l ∷ r ∷ xs) i h enough = absurd (omega arith)
path_from-root (suc fuel) (l ∷ r ∷ xs) i h enough =
    let level = l ∷ r ∷ xs in
    let parent = next_level level in
    let n = length-next_level level in
    path_from-root fuel parent (i / 2) (omega arith) (omega arith)
    ∙ ap (λ current. some (compute_merkle_root current (path_from fuel parent (i / 2)) (i / 2)))
        (sym (climb-node_at level i h))

-- The climb of a leaf, at any index: the loop of the program on numbers without a bound.
climbs_to_root :
    (leaves : List Bytes) (i : ℕ)
    → i < length leaves
    → build_merkle_root leaves
      ≡ some (compute_merkle_root (node_at leaves i) (proof_path leaves i) i)
unfolding build_merkle_root proof_path
climbs_to_root [] i h = absurd (omega arith)
climbs_to_root (x ∷ xs) i h = path_from-root (length xs) (x ∷ xs) i h (omega arith)

-- For an index of at most 255, which is what the position of the program can hold, the
-- publisher's loop ends for every list of leaves that has a leaf at that index, and its root is
-- the one that the program's loop computes from that leaf, its siblings and the index.
pub proof_path-root :
    (leaves : List Bytes) (i : ℕ)
    → i ≤ u8_max
    → i < length leaves
    → build_merkle_root leaves
      ≡ some (compute_merkle_root (node_at leaves i) (proof_path leaves i) i)
proof_path-root leaves i fits h = climbs_to_root leaves i h

-- A tree of at most `2 ^ d` leaves has proofs of at most `d` nodes.
length-path_from :
    (fuel d : ℕ) (xs : List Bytes) (i : ℕ) → length xs ≤ 2 ^ d → length (path_from fuel xs i) ≤ d
unfolding path_from
length-path_from fuel d [] i h = omega arith
length-path_from fuel d (x ∷ []) i h = omega arith
length-path_from zero d (l ∷ r ∷ xs) i h = omega arith
length-path_from (suc fuel) zero (l ∷ r ∷ xs) i h = absurd (omega arith)
length-path_from (suc fuel) (suc d) (l ∷ r ∷ xs) i h =
    let n = length-next_level (l ∷ r ∷ xs) in
    let p = pow-suc 2 d in
    omega (arith, length-path_from fuel d (next_level (l ∷ r ∷ xs)) (i / 2) (omega arith))

pub length-proof_path :
    (d : ℕ) (leaves : List Bytes) (i : ℕ) → length leaves ≤ 2 ^ d → length (proof_path leaves i) ≤ d
unfolding proof_path
length-proof_path d [] i h = omega arith
length-proof_path d (x ∷ xs) i h = length-path_from (length xs) d (x ∷ xs) i h

-- After `n` siblings the position has lost its `n` lowest bits.
compute_merkle_root-append :
    (p q : List Bytes) (leaf : Bytes) (position : ℕ)
    → position < 2 ^ length p
    → compute_merkle_root leaf (p ++ q) position
      ≡ compute_merkle_root (compute_merkle_root leaf p position) q 0
unfolding compute_merkle_root
compute_merkle_root-append [] q leaf position h = ap (compute_merkle_root leaf q) (omega arith)
compute_merkle_root-append (s ∷ p) q leaf position h =
    let e = pow-suc 2 (length p) in
    compute_merkle_root-append p q (climb leaf s position) (position / 2) (omega arith)

pub compute_merkle_root-left :
    (p q : List Bytes) (leaf : Bytes) (position : ℕ)
    → position ≤ u8_max
    → length p ≡ 8
    → compute_merkle_root leaf (p ++ q) position
      ≡ compute_merkle_root (compute_merkle_root leaf p position) q 0
compute_merkle_root-left p q leaf position h e =
    compute_merkle_root-append p q leaf position (rw e (omega arith))
