-- ===== src/Merkle/Sound.antt =====
-- What an accepted Merkle proof shows: the manifest is one of those that the publisher hashed, or a
-- string that the publisher hashed and another that the check hashed have one hash.
use mathlib.Core.Path.{subst}
use enrg.Prelude.{
  ℕ, ◌/◌, ◌%◌, ◌≡◌, refl, sym, ap, ◌∙◌, ◌≢◌, ◌⊎◌, inl, inr, arith, false, some, List, [], ◌∷◌, ◌++◌,
  map, length, length-append, All, ◌==◌, bytes_eq, bytes_eq→eq, bytes_eq_refl, Bool-cases,
  if◌then◌else◌,
}
use enrg.Solana.{Bytes}
use enrg.Messages.Injective.{append_cancel}
use enrg.Merkle.{merkle_hash, climb, compute_merkle_root, manifest_leaf_hash, build_merkle_root}
use enrg.Merkle.Sha256.{hash}
use enrg.Merkle.Inputs.{
  Among, Manifest, IsManifest, Is32, leaf_of, leaf_input, path_inputs, published_inputs,
  checked_inputs, Clash, Node, leaf, inner, build_merkle_root-Node, leaf_input-published,
}
use enrg.Merkle.Padding.{length-hash}

bytes_differ : (x y : Bytes) → bytes_eq x y ≡ false → x ≢ y
bytes_differ x y other e = cc (bytes_eq_refl x)

-- Equal hashes of a published and a checked string come from equal strings, or they clash.
module _ (published checked : List Bytes) where
  hash_injective :
      (x y : Bytes)
      → Among x published
      → Among y checked
      → hash x ≡ hash y
      → (x ≡ y) ⊎ Clash published checked
  hash_injective x y p c h = elim (Bool-cases (bytes_eq x y)) [
    | inl same ↦ inl (bytes_eq→eq x y same)
    | inr other ↦ inr (record {
      one = x;
      other = y;
      from_published = p;
      from_checked = c;
      differ = bytes_differ x y other;
      collide = h;
    })
  ]

  -- Strings of two lengths with one hash clash.
  hash_lengths :
      (x y : Bytes)
      → Among x published
      → Among y checked
      → length x ≢ length y
      → hash x ≡ hash y
      → Clash published checked
  hash_lengths x y p c longer h = elim (hash_injective x y p c h) [
    | inl same ↦ absurd (longer (ap length same))
    | inr found ↦ found
  ]

merkle_hash-Is32 : (l r : Bytes) → Is32 (merkle_hash l r)
unfolding merkle_hash
merkle_hash-Is32 l r = length-hash (l ++ r)

leaf_of-Is32 : (m : Manifest) → Is32 (leaf_of m)
unfolding manifest_leaf_hash
leaf_of-Is32 m = length-hash (m.manifest_id ++ m.content_hash)

climb-Is32 : (current sibling : Bytes) (pos : ℕ) → Is32 (climb current sibling pos)
unfolding climb
climb-Is32 current sibling pos =
    ground (arith, merkle_hash-Is32 current sibling, merkle_hash-Is32 sibling current)

-- A leaf of the list stems from one of its manifests.
manifest_of :
    (v : Bytes) (ms : List Manifest)
    → All IsManifest ms
    → Among v (map leaf_of ms)
    → (m : Manifest) × Among m ms × IsManifest m × (v ≡ leaf_of m)
manifest_of v [] widths found = absurd found
manifest_of v (m ∷ ms) (width, widths) (inl e) = (m, inl refl, width, e)
manifest_of v (m ∷ ms) (width, widths) (inr found) =
    let (n, inside, w, e) = manifest_of v ms widths found in (n, inr inside, w, e)

leaf_inner_lengths :
    (m : Manifest) (l r : Bytes)
    → IsManifest m
    → Is32 l
    → Is32 r
    → length (leaf_input m) ≢ length (l ++ r)
leaf_inner_lengths m l r (h₁, h₂) hl hr same =
    omega (arith, same, length-append m.manifest_id m.content_hash, length-append l r)

-- The manifests, and what their publisher and a check hash, from here on.
module _ (ms : List Manifest) (widths : All IsManifest ms) (checked : List Bytes) where
  abbrev OrClash : Type 0 → Type 0
  OrClash A = A ⊎ Clash (published_inputs ms) checked

  abbrev IsNode : Bytes → Type 0
  IsNode = Node (map leaf_of ms) (published_inputs ms)

  Node-Is32 : (v : Bytes) → IsNode v → Is32 v
  Node-Is32 v (leaf _ found) =
      let (m, inside, width, e) = manifest_of v ms widths found in ap length e ∙ leaf_of-Is32 m
  Node-Is32 v (inner l r _ _ _ _ e) = ap length e ∙ merkle_hash-Is32 l r

  -- The children of a node are nodes.
  Node-children :
      (v x y : Bytes)
      → Is32 x
      → Is32 y
      → Among (x ++ y) checked
      → v ≡ merkle_hash x y
      → IsNode v
      → OrClash (IsNode x × IsNode y)
  unfolding manifest_leaf_hash merkle_hash
  Node-children v x y hx hy hashed e (leaf _ found) =
      let (m, inside, width, f) = manifest_of v ms widths found in
      inr (
        hash_lengths (published_inputs ms) checked (leaf_input m) (x ++ y)
          (leaf_input-published m ms inside) hashed (leaf_inner_lengths m x y width hx hy)
          (sym f ∙ e))
  Node-children v x y hx hy hashed e (inner l r _ nl nr built f) =
      elim (hash_injective (published_inputs ms) checked (l ++ r) (x ++ y) built hashed
        (sym f ∙ e)) [
          | inl same ↦
              let (p, q) = append_cancel l r x y (Node-Is32 l nl ∙ sym hx) same in
              inl (subst IsNode p nl, subst IsNode q nr)
          | inr found ↦ inr found
        ]

  -- The node below the one that a round of the check computes.
  climb_down :
      (current sibling : Bytes) (pos : ℕ)
      → Is32 current
      → Is32 sibling
      → Among (if pos % 2 == 0 then current ++ sibling else sibling ++ current) checked
      → IsNode (climb current sibling pos)
      → OrClash (IsNode current)
  unfolding climb
  climb_down current sibling pos hc hs hashed node = elim (Bool-cases (pos % 2 == 0)) [
    | inl even ↦
        elim (Node-children (climb current sibling pos) current sibling hc hs
          (subst (λ b. Among (if b then current ++ sibling else sibling ++ current) checked) even
            hashed)
          (rw even refl) node) [ inl (below, _) ↦ inl below | inr found ↦ inr found ]
    | inr odd ↦
        elim (Node-children (climb current sibling pos) sibling current hs hc
          (subst (λ b. Among (if b then current ++ sibling else sibling ++ current) checked) odd
            hashed)
          (rw odd refl) node) [ inl (_, below) ↦ inl below | inr found ↦ inr found ]
  ]

  -- A proof that leads to a node starts at a node.
  path_down :
      (current : Bytes) (path : List Bytes) (pos : ℕ)
      → Is32 current
      → All Is32 path
      → ((x : Bytes) → Among x (path_inputs current path pos) → Among x checked)
      → IsNode (compute_merkle_root current path pos)
      → OrClash (IsNode current)
  unfolding compute_merkle_root path_inputs
  path_down current [] pos hc hp within node = inl node
  path_down current (s ∷ path) pos hc (hs, hp) within node =
      elim (path_down (climb current s pos) path (pos / 2) (climb-Is32 current s pos) hp
        (λ x found. within x (inr found)) node) [
          | inl above ↦ climb_down current s pos hc hs (within _ (inl refl)) above
          | inr found ↦ inr found
        ]

  -- A leaf that is a node is the leaf of one of the manifests.
  leaf_member :
      (n : Manifest) (v : Bytes)
      → IsManifest n
      → Among (leaf_input n) checked
      → v ≡ leaf_of n
      → IsNode v
      → OrClash (Among n ms)
  unfolding manifest_leaf_hash merkle_hash
  leaf_member n v (h₁, h₂) hashed e (leaf _ found) =
      let (m, inside, (h₃, h₄), f) = manifest_of v ms widths found in
      elim (hash_injective (published_inputs ms) checked (leaf_input m) (leaf_input n)
        (leaf_input-published m ms inside) hashed (sym f ∙ e)) [
          | inl same ↦
              let (p, q) =
                append_cancel m.manifest_id m.content_hash n.manifest_id n.content_hash
                  (h₃ ∙ sym h₁) same in
              let equal : m ≡ n = λ i. record { manifest_id = p i; content_hash = q i } in
              inl (subst (λ k. Among k ms) equal inside)
          | inr clash ↦ inr clash
        ]
  leaf_member n v width hashed e (inner l r _ nl nr built f) =
      let differ = leaf_inner_lengths n l r width (Node-Is32 l nl) (Node-Is32 r nr) in
      inr (
        hash_lengths (published_inputs ms) checked (l ++ r) (leaf_input n) built hashed
          (λ same. differ (sym same)) (sym f ∙ e))

-- A leaf whose path leads to the root of the tree belongs to one of the manifests, or a string that
-- the publisher hashed clashes with one that the check hashes.
pub tree_member :
    (m : Manifest) (ms : List Manifest) (n : Manifest) (path : List Bytes) (position : ℕ)
    → All IsManifest (m ∷ ms)
    → IsManifest n
    → All Is32 path
    → build_merkle_root (map leaf_of (m ∷ ms))
      ≡ some (compute_merkle_root (leaf_of n) path position)
    → Among n (m ∷ ms) ⊎ Clash (published_inputs (m ∷ ms)) (checked_inputs n path position)
tree_member m ms n path position widths width path_widths e =
    let checked = checked_inputs n path position in
    let top = build_merkle_root-Node m ms (compute_merkle_root (leaf_of n) path position) e in
    elim (path_down (m ∷ ms) widths checked (leaf_of n) path position (leaf_of-Is32 n) path_widths
      (λ x found. inr found) top) [
        | inl below ↦ leaf_member (m ∷ ms) widths checked n (leaf_of n) width (inl refl) refl below
        | inr found ↦ inr found
      ]
