-- ===== src/Merkle/Errors.antt =====
-- Which check of verify_merkle_proof an error comes from.
use enrg.Prelude.{
  ℕ, ◌<◌, ◌≡◌, ◌≢◌, refl, ap, ◌∙◌, ◌⊎◌, inl, inr, arith, some, Option-cases, List, length, leb,
  bytes_eq, bytes_eq_refl, false, Result, ok, err, Error, code, framework, ErrorCode, require_else,
}
use enrg.Solana.{Bytes, Runtime}
use enrg.Merkle.{
  MerkleProofVerification, VerifyMerkleProof, compute_merkle_root, manifest_leaf_hash,
  check_merkle_proof, verify_merkle_proof,
}

-- The reasons to refuse, each with the error that it gives.
pub data Refusal (accounts : VerifyMerkleProof) (id : Bytes) (path : List Bytes) (leaf : Bytes)
    (position : ℕ) (e : Error) : Type 0 where
  already_verified :
      (out : MerkleProofVerification)
      → accounts.proof_verification ≡ some out
      → e ≡ framework 0
      → Refusal accounts id path leaf position e
  other_manifest :
      accounts.manifest_verification.manifest_id ≢ id
      → e ≡ code ErrorCode.manifest_id_mismatch
      → Refusal accounts id path leaf position e
  long_path :
      32 < length path
      → e ≡ code ErrorCode.proof_path_too_long
      → Refusal accounts id path leaf position e
  other_leaf :
      leaf ≢ manifest_leaf_hash id accounts.manifest_verification.content_hash
      → e ≡ code ErrorCode.invalid_manifest_leaf
      → Refusal accounts id path leaf position e
  other_root :
      compute_merkle_root leaf path position ≢ accounts.registry.merkle_root
      → e ≡ code ErrorCode.invalid_proof
      → Refusal accounts id path leaf position e

bytes_differ : (x y : Bytes) → bytes_eq x y ≡ false → x ≢ y
bytes_differ x y other e = cc (bytes_eq_refl x)

check_merkle_proof-Refusal :
    (accounts : VerifyMerkleProof) (id : Bytes) (path : List Bytes) (leaf : Bytes) (position : ℕ)
    (e : Error)
    → check_merkle_proof accounts id path leaf position ≡ err e
    → Refusal accounts id path leaf position e
unfolding check_merkle_proof
check_merkle_proof-Refusal accounts id path leaf position e h =
    let manifest = accounts.manifest_verification in
    let expected = manifest_leaf_hash id manifest.content_hash in
    let computed = compute_merkle_root leaf path position in
    let root = accounts.registry.merkle_root in
    elim (require_else (bytes_eq manifest.manifest_id id) _ _ h) [
      | inl (c, d) ↦ Refusal.other_manifest (bytes_differ manifest.manifest_id id c) d
      | inr (_, h₁) ↦ elim (require_else (leb (length path) 32) _ _ h₁) [
        | inl (c, d) ↦ Refusal.long_path (ground arith) d
        | inr (_, h₂) ↦ elim (require_else (bytes_eq leaf expected) _ _ h₂) [
          | inl (c, d) ↦ Refusal.other_leaf (bytes_differ leaf expected c) d
          | inr (_, h₃) ↦ elim (require_else (bytes_eq computed root) _ _ h₃) [
            | inl (c, d) ↦ Refusal.other_root (bytes_differ computed root c) d
            | inr (_, h₄) ↦ cc
          ]
        ]
      ]
    ]

result_cases {ℓ} :
    {A : Type ℓ} (r : Result A) → ((a : A) × (r ≡ ok a)) ⊎ ((e : Error) × (r ≡ err e))
result_cases (ok a) = inl (a, refl)
result_cases (err e) = inr (e, refl)

-- Every error of a verification tells its reason: the framework's error that a proof is on
-- record, a mismatch that the manifest has another identifier, a path that is too long that it
-- has more than 32 nodes, an invalid leaf that it is not the hash of the identifier and the
-- content, and an invalid proof that the computed root is not that of the registry; there is no
-- other error.
pub verify_merkle_proof-Refusal :
    (rt : Runtime) (accounts : VerifyMerkleProof) (id : Bytes) (path : List Bytes) (leaf : Bytes)
    (position : ℕ) (e : Error)
    → verify_merkle_proof rt accounts id path leaf position ≡ err e
    → Refusal accounts id path leaf position e
unfolding verify_merkle_proof
verify_merkle_proof-Refusal rt accounts id path leaf position e h =
    elim (Option-cases accounts.proof_verification) [
      | inl fresh ↦ elim (result_cases (check_merkle_proof accounts id path leaf position)) [
        | inl (root, c) ↦ let g = rw fresh at h in let k = rw c at g in cc
        | inr (f, c) ↦
            let g = rw fresh at h in
            let k = rw c at g in
            let same : f ≡ e = cc in
            check_merkle_proof-Refusal accounts id path leaf position e (c ∙ ap err same)
      ]
      | inr (out, there) ↦ let g = rw there at h in Refusal.already_verified out there (cc)
    ]
