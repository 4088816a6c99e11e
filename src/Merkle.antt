-- ===== src/Merkle.antt =====
-- programs/enrg-mvp/src/instructions/merkle_proof_verification.rs, with
-- state/merkle_proof_verification.rs, and the publisher's tree, `buildMerkleRoot` of
-- oracle/registry/app.js. Sha256 is the program's hash function.
pub mod Sha256
pub mod Padding
pub mod Tree
pub mod Inputs
pub mod Sound
pub mod Verify
pub mod Errors
mod Tests
use enrg.Prelude.{
  ℕ, zero, suc, ◌/◌, ◌%◌, Bool, true, false, not, ◌&&◌, Option, none, some, List, [], ◌∷◌, ◌++◌,
  length, leb, ◌==◌, if◌then◌else◌, bytes_eq, Result, ok, err, framework, ErrorCode, require, ◌>>=◌,
  ◌>>◌,
}
use enrg.Prelude.Int.{ℤ}
use enrg.Solana.{Pubkey, Bytes, zero_hash, all_zero, vacant, Runtime}
use enrg.Manifest.{ManifestRegistry, ManifestVerification}
use enrg.Merkle.Sha256.{hash}

-- state/merkle_proof_verification.rs
pub record MerkleProofVerification : Type 0 where
  pub registry : Pubkey
  pub manifest_verification : Pubkey
  pub verified_root : Bytes
  pub verified_at : ℤ
  pub proof_length : ℕ
  pub verified_by : Pubkey

unfoldable pub merkle_hash : Bytes → Bytes → Bytes
merkle_hash left right = hash (left ++ right)

-- One round of the loop of `compute_merkle_root`: the lowest bit of the position says on which
-- side the sibling stands.
unfoldable pub climb : Bytes → Bytes → ℕ → Bytes
unfolding merkle_hash
climb current sibling pos =
    if pos % 2 == 0 then merkle_hash current sibling else merkle_hash sibling current

-- The position is a `u8` in the source: the program calls this with at most 255, and `pos / 2` is its
-- shift.
unfoldable pub compute_merkle_root : Bytes → List Bytes → ℕ → Bytes
unfolding climb
compute_merkle_root current [] pos = current
compute_merkle_root current (sibling ∷ proof_path) pos =
    compute_merkle_root (climb current sibling pos) proof_path (pos / 2)

unfoldable pub manifest_leaf_hash : Bytes → Bytes → Bytes
manifest_leaf_hash manifest_id content_hash = hash (manifest_id ++ content_hash)

-- The accounts of the instruction: the two that exist with their addresses, and the record that
-- `init` creates, which must not exist.
pub record VerifyMerkleProof : Type 0 where
  pub registry_key : Pubkey
  pub registry : ManifestRegistry
  pub manifest_key : Pubkey
  pub manifest_verification : ManifestVerification
  pub proof_verification : Option MerkleProofVerification
  pub verifier : Pubkey

-- The checks of the handler, with the root that it computes.
unfoldable pub check_merkle_proof :
    VerifyMerkleProof → Bytes → List Bytes → Bytes → ℕ → Result Bytes
unfolding compute_merkle_root manifest_leaf_hash
check_merkle_proof accounts manifest_id proof_path leaf_hash position =
    let manifest = accounts.manifest_verification in
    let expected_leaf = manifest_leaf_hash manifest_id manifest.content_hash in
    let computed_root = compute_merkle_root leaf_hash proof_path position in
    do
      require (bytes_eq manifest.manifest_id manifest_id) ErrorCode.manifest_id_mismatch
      require (leb (length proof_path) 32) ErrorCode.proof_path_too_long
      require (bytes_eq leaf_hash expected_leaf) ErrorCode.invalid_manifest_leaf
      require (bytes_eq computed_root accounts.registry.merkle_root) ErrorCode.invalid_proof
      ok computed_root

unfoldable pub verify_merkle_proof :
    Runtime → VerifyMerkleProof → Bytes → List Bytes → Bytes → ℕ → Result MerkleProofVerification
unfolding check_merkle_proof
verify_merkle_proof rt accounts manifest_id proof_path leaf_hash position = do
  vacant accounts.proof_verification
  computed_root ← check_merkle_proof accounts manifest_id proof_path leaf_hash position
  ok (record {
    registry = accounts.registry_key;
    manifest_verification = accounts.manifest_key;
    verified_root = computed_root;
    verified_at = rt.now;
    proof_length = length proof_path % 256;
    verified_by = accounts.verifier;
  })

unfoldable pub validate_proof_computation : Bytes → List Bytes → ℕ → Bytes → Bool
unfolding compute_merkle_root all_zero
validate_proof_computation leaf_hash proof_path position registry_root =
    bytes_eq (compute_merkle_root leaf_hash proof_path position) registry_root
    && not (all_zero leaf_hash)

-- The inner loop of `buildMerkleRoot`: an odd last node is paired with itself.
unfoldable pub next_level : List Bytes → List Bytes
unfolding merkle_hash
next_level [] = []
next_level (left ∷ []) = merkle_hash left left ∷ []
next_level (left ∷ right ∷ nodes) = merkle_hash left right ∷ next_level nodes

-- The outer loop, with fuel. A level of one node ends it; without fuel there is no root.
unfoldable pub climb_levels : ℕ → List Bytes → Option Bytes
unfolding next_level
climb_levels fuel [] = none
climb_levels fuel (node ∷ []) = some node
climb_levels zero (left ∷ right ∷ nodes) = none
climb_levels (suc fuel) (left ∷ right ∷ nodes) =
    climb_levels fuel (next_level (left ∷ right ∷ nodes))

-- A level of `n` nodes needs fewer than `n` rounds.
unfoldable pub build_merkle_root : List Bytes → Option Bytes
unfolding climb_levels
build_merkle_root [] = some zero_hash
build_merkle_root (leaf ∷ leaves) = climb_levels (length leaves) (leaf ∷ leaves)
