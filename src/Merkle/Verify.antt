-- ===== src/Merkle/Verify.antt =====
-- The handler verify_merkle_proof against a registry whose root is the publisher's: it accepts every
-- published manifest, and no other unless the hash of what it hashes is that of another string that
-- the publisher hashed.
use enrg.Prelude.{
  ℕ, ◌^◌, ◌≤◌, ◌<◌, ◌≡◌, sym, ap, ◌∙◌, ◌⊎◌, arith, none, some, List, ◌∷◌, ◌%◌, true, map, length,
  All, leb, bytes_eq, bytes_eq→eq, bytes_eq_refl, u8_max, ok, require_then, check_then, >>=-eq-ok,
}
use enrg.Solana.{Bytes, Runtime, vacant}
use enrg.Merkle.{
  MerkleProofVerification, VerifyMerkleProof, compute_merkle_root, manifest_leaf_hash,
  check_merkle_proof, verify_merkle_proof, build_merkle_root,
}
use enrg.Merkle.Tree.{node_at, proof_path, proof_path-root, length-proof_path}
use enrg.Merkle.Inputs.{
  Among, Manifest, IsManifest, Is32, leaf_of, published_inputs, checked_inputs, Clash,
}
use enrg.Merkle.Sound.{tree_member}

-- What an accepted proof passed.
record IsAccepted (accounts : VerifyMerkleProof) (id : Bytes) (path : List Bytes) (leaf : Bytes)
    (position : ℕ) : Type 0 where
  same_id : accounts.manifest_verification.manifest_id ≡ id
  short : length path ≤ 32
  same_leaf : leaf ≡ manifest_leaf_hash id accounts.manifest_verification.content_hash
  same_root : compute_merkle_root leaf path position ≡ accounts.registry.merkle_root

check_merkle_proof-IsAccepted :
    (accounts : VerifyMerkleProof) (id : Bytes) (path : List Bytes) (leaf : Bytes) (position : ℕ)
    (root : Bytes)
    → check_merkle_proof accounts id path leaf position ≡ ok root
    → IsAccepted accounts id path leaf position
unfolding check_merkle_proof
check_merkle_proof-IsAccepted accounts id path leaf position root h =
    let manifest = accounts.manifest_verification in
    let expected = manifest_leaf_hash id manifest.content_hash in
    let computed = compute_merkle_root leaf path position in
    let (c₁, h₁) = require_then (bytes_eq manifest.manifest_id id) _ _ h in
    let (c₂, h₂) = require_then (leb (length path) 32) _ _ h₁ in
    let (c₃, h₃) = require_then (bytes_eq leaf expected) _ _ h₂ in
    let (c₄, h₄) = require_then (bytes_eq computed accounts.registry.merkle_root) _ _ h₃ in
    record {
      same_id = bytes_eq→eq manifest.manifest_id id c₁;
      short = ground arith;
      same_leaf = bytes_eq→eq leaf expected c₃;
      same_root = bytes_eq→eq computed accounts.registry.merkle_root c₄;
    }

-- When the root of the registry is the one that the publisher builds from a list of manifests
-- that is not empty, with identifiers of 16 and contents of 32 bytes, and a proof of nodes of 32
-- bytes is accepted, then the manifest of the proof, with its identifier and its content, is in
-- the list, or one of the strings that the publisher hashed for that list and a different one of
-- those that this check hashed have the same SHA-256 hash.
pub verify_merkle_proof-IsPublished :
    (rt : Runtime) (accounts : VerifyMerkleProof) (id : Bytes) (path : List Bytes) (leaf : Bytes)
    (position : ℕ) (m : Manifest) (ms : List Manifest) (out : MerkleProofVerification)
    → All IsManifest (m ∷ ms)
    → length id ≡ 16
    → length accounts.manifest_verification.content_hash ≡ 32
    → All Is32 path
    → build_merkle_root (map leaf_of (m ∷ ms)) ≡ some accounts.registry.merkle_root
    → verify_merkle_proof rt accounts id path leaf position ≡ ok out
    → Among
        (record { manifest_id = id; content_hash = accounts.manifest_verification.content_hash })
        (m ∷ ms)
      ⊎ Clash (published_inputs (m ∷ ms)) (
          checked_inputs
            (record {
              manifest_id = id;
              content_hash = accounts.manifest_verification.content_hash;
            })
            path
            position)
unfolding verify_merkle_proof
verify_merkle_proof-IsPublished rt accounts id path leaf position m ms out widths hid hc hp root h =
    let (_, h₁) = check_then (vacant accounts.proof_verification) _ h in
    let (computed, h₂, _) = >>=-eq-ok (check_merkle_proof accounts id path leaf position) _ h₁ in
    let passed = check_merkle_proof-IsAccepted accounts id path leaf position computed h₂ in
    let content = accounts.manifest_verification.content_hash in
    let n : Manifest = record { manifest_id = id; content_hash = content } in
    tree_member m ms n path position widths (hid, hc) hp
      (root
        ∙ ap some
            (sym passed.same_root ∙ ap (λ l. compute_merkle_root l path position) passed.same_leaf))

-- The record that the handler writes.
abbrev pub verified : Runtime → VerifyMerkleProof → List Bytes → MerkleProofVerification
verified rt accounts path = record {
  registry = accounts.registry_key;
  manifest_verification = accounts.manifest_key;
  verified_root = accounts.registry.merkle_root;
  verified_at = rt.now;
  proof_length = length path % 256;
  verified_by = accounts.verifier;
}

-- When the root of the registry is the one that the publisher builds from at most 2 ^ 32 leaves,
-- the leaf at an index up to 255 is that of the registered manifest, and no proof of it is on
-- record, then verification with the siblings of that leaf and the index succeeds and writes the
-- root, the time, the length of the path and the verifier.
pub verify_merkle_proof_complete :
    (rt : Runtime) (accounts : VerifyMerkleProof) (leaves : List Bytes) (index : ℕ)
    → index ≤ u8_max
    → index < length leaves
    → length leaves ≤ 2 ^ 32
    → build_merkle_root leaves ≡ some accounts.registry.merkle_root
    → node_at leaves index
      ≡ manifest_leaf_hash accounts.manifest_verification.manifest_id
          accounts.manifest_verification.content_hash
    → accounts.proof_verification ≡ none
    → verify_merkle_proof rt accounts accounts.manifest_verification.manifest_id
        (proof_path leaves index)
        (node_at leaves index)
        index
      ≡ ok (verified rt accounts (proof_path leaves index))
unfolding verify_merkle_proof check_merkle_proof
verify_merkle_proof_complete rt accounts leaves index low within few root leaf fresh =
    let id = accounts.manifest_verification.manifest_id in
    let path = proof_path leaves index in
    let same = proof_path-root leaves index low within in
    let computed : compute_merkle_root (node_at leaves index) path index
        ≡ accounts.registry.merkle_root =
      cc in
    let short : length path ≤ 32 = length-proof_path 32 leaves index few in
    let same_id = bytes_eq_refl id in
    let same_leaf = bytes_eq_refl (node_at leaves index) in
    let same_root = bytes_eq_refl accounts.registry.merkle_root in
    let fits : leb (length path) 32 ≡ true = ground arith in
    let leaf_eq : bytes_eq (node_at leaves index)
          (manifest_leaf_hash id accounts.manifest_verification.content_hash)
        ≡ true =
      cc in
    simp (fresh, same_id, fits, leaf_eq, computed, same_root)
