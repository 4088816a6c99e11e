-- ===== src/Merkle/Inputs.antt =====
-- The strings that the publisher hashes for a tree of manifests and those that the check of a proof
-- hashes, and the nodes of the tree with them.
use mathlib.Core.Path.{subst}
use enrg.Prelude.{
  ℕ, zero, suc, ◌/◌, ◌%◌, ◌≡◌, refl, ap, ◌≢◌, ◌⊎◌, inl, inr, some, List, [], ◌∷◌, ◌++◌, map, length,
  All, ◌==◌, if◌then◌else◌,
}
use enrg.Solana.{Bytes}
use enrg.Merkle.{
  merkle_hash, climb, manifest_leaf_hash, next_level, climb_levels, build_merkle_root,
}
use enrg.Merkle.Sha256.{hash}

abbrev pub Among : {A : Type 0} → A → List A → Type 0
Among x [] = ⊥
Among x (y ∷ ys) = (x ≡ y) ⊎ Among x ys

Among-left : {A : Type 0} (x : A) (xs ys : List A) → Among x xs → Among x (xs ++ ys)
Among-left x [] ys found = absurd found
Among-left x (z ∷ xs) ys (inl e) = inl e
Among-left x (z ∷ xs) ys (inr found) = inr (Among-left x xs ys found)

Among-right : {A : Type 0} (x : A) (xs ys : List A) → Among x ys → Among x (xs ++ ys)
Among-right x [] ys found = found
Among-right x (z ∷ xs) ys found = inr (Among-right x xs ys found)

Among-map : {A B : Type 0} (f : A → B) (x : A) (xs : List A) → Among x xs → Among (f x) (map f xs)
Among-map f x [] found = absurd found
Among-map f x (y ∷ xs) (inl e) = inl (ap f e)
Among-map f x (y ∷ xs) (inr found) = inr (Among-map f x xs found)

-- What the publisher puts into a leaf.
pub record Manifest : Type 0 where
  pub manifest_id : Bytes
  pub content_hash : Bytes

-- The widths of the arrays of the source.
abbrev pub IsManifest : Manifest → Type 0
IsManifest m = (length m.manifest_id ≡ 16) × (length m.content_hash ≡ 32)

abbrev pub Is32 : Bytes → Type 0
Is32 bytes = length bytes ≡ 32

abbrev pub leaf_of : Manifest → Bytes
leaf_of m = manifest_leaf_hash m.manifest_id m.content_hash

abbrev pub leaf_input : Manifest → Bytes
leaf_input m = m.manifest_id ++ m.content_hash

-- The strings of one level of the tree, and of all.
unfoldable pub pair_inputs : List Bytes → List Bytes
pair_inputs [] = []
pair_inputs (x ∷ []) = (x ++ x) ∷ []
pair_inputs (l ∷ r ∷ xs) = (l ++ r) ∷ pair_inputs xs

unfoldable pub tree_inputs : ℕ → List Bytes → List Bytes
tree_inputs fuel [] = []
tree_inputs fuel (x ∷ []) = []
tree_inputs zero (l ∷ r ∷ xs) = []
tree_inputs (suc fuel) (l ∷ r ∷ xs) =
    pair_inputs (l ∷ r ∷ xs) ++ tree_inputs fuel (next_level (l ∷ r ∷ xs))

-- What the publisher of these manifests hashes.
unfoldable pub published_inputs : List Manifest → List Bytes
published_inputs [] = []
published_inputs (m ∷ ms) =
    map leaf_input (m ∷ ms) ++ tree_inputs (length (map leaf_of ms)) (map leaf_of (m ∷ ms))

-- What the check hashes on the way up, and in all.
unfoldable pub path_inputs : Bytes → List Bytes → ℕ → List Bytes
path_inputs current [] pos = []
path_inputs current (sibling ∷ path) pos =
    (if pos % 2 == 0 then current ++ sibling else sibling ++ current)
    ∷ path_inputs (climb current sibling pos) path (pos / 2)

abbrev pub checked_inputs : Manifest → List Bytes → ℕ → List Bytes
checked_inputs n path position = leaf_input n ∷ path_inputs (leaf_of n) path position

-- Two different strings with one SHA-256 hash, the one from a first list and the other from a second.
pub record Clash (published checked : List Bytes) : Type 0 where
  pub one : Bytes
  pub other : Bytes
  pub from_published : Among one published
  pub from_checked : Among other checked
  pub differ : one ≢ other
  pub collide : hash one ≡ hash other

-- A node of the tree over a list of leaves, with the strings that were hashed.
pub data Node (leaves inputs : List Bytes) : Bytes → Type 0 where
  leaf : (v : Bytes) → Among v leaves → Node leaves inputs v
  inner :
      (l r v : Bytes)
      → Node leaves inputs l
      → Node leaves inputs r
      → Among (l ++ r) inputs
      → v ≡ merkle_hash l r
      → Node leaves inputs v

module _ (leaves inputs : List Bytes) where
  All-next_level :
      (xs : List Bytes)
      → ((x : Bytes) → Among x (pair_inputs xs) → Among x inputs)
      → All (Node leaves inputs) xs
      → All (Node leaves inputs) (next_level xs)
  unfolding next_level pair_inputs
  All-next_level [] within nodes = tt
  All-next_level (x ∷ []) within (node, _) =
      (inner x x (merkle_hash x x) node node (within (x ++ x) (inl refl)) refl, tt)
  All-next_level (l ∷ r ∷ xs) within (nl, (nr, nodes)) = (
    inner l r (merkle_hash l r) nl nr (within (l ++ r) (inl refl)) refl,
    All-next_level xs (λ x found. within x (inr found)) nodes,
  )

  pub root-Node :
      (fuel : ℕ) (xs : List Bytes) (root : Bytes)
      → ((x : Bytes) → Among x (tree_inputs fuel xs) → Among x inputs)
      → All (Node leaves inputs) xs
      → climb_levels fuel xs ≡ some root
      → Node leaves inputs root
  unfolding climb_levels tree_inputs
  root-Node fuel [] root within nodes h = cc
  root-Node fuel (x ∷ []) root within (node, _) h =
      let e : x ≡ root = cc in subst (Node leaves inputs) e node
  root-Node zero (l ∷ r ∷ xs) root within nodes h = cc
  root-Node (suc fuel) (l ∷ r ∷ xs) root within nodes h =
      let level = l ∷ r ∷ xs in
      let above = next_level level in
      root-Node fuel above root
        (λ x found. within x (Among-right x (pair_inputs level) (tree_inputs fuel above) found))
        (All-next_level level
          (λ x found. within x (Among-left x (pair_inputs level) (tree_inputs fuel above) found))
          nodes)
        h

  leaf_nodes :
      (xs : List Bytes) → ((v : Bytes) → Among v xs → Among v leaves) → All (Node leaves inputs) xs
  leaf_nodes [] within = tt
  leaf_nodes (x ∷ xs) within =
      (leaf x (within x (inl refl)), leaf_nodes xs (λ v found. within v (inr found)))

-- The root that is built is a node over what the publisher hashed.
pub build_merkle_root-Node :
    (m : Manifest) (ms : List Manifest) (root : Bytes)
    → build_merkle_root (map leaf_of (m ∷ ms)) ≡ some root
    → Node (map leaf_of (m ∷ ms)) (published_inputs (m ∷ ms)) root
unfolding build_merkle_root published_inputs
build_merkle_root-Node m ms root e =
    let leaves = map leaf_of (m ∷ ms) in
    let inputs = published_inputs (m ∷ ms) in
    let fuel = length (map leaf_of ms) in
    root-Node leaves inputs fuel leaves root
      (λ x found. Among-right x (map leaf_input (m ∷ ms)) (tree_inputs fuel leaves) found)
      (leaf_nodes leaves inputs leaves (λ v found. found)) e

pub leaf_input-published :
    (m : Manifest) (ms : List Manifest) → Among m ms → Among (leaf_input m) (published_inputs ms)
unfolding published_inputs
leaf_input-published m [] found = absurd found
leaf_input-published m (k ∷ ms) found =
    Among-left (leaf_input m) (map leaf_input (k ∷ ms)) _ (Among-map leaf_input m (k ∷ ms) found)
