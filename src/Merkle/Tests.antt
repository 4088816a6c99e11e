-- ===== src/Merkle/Tests.antt =====
-- The hash of the standard's example, and the theorems on Merkle proofs at a tree of three leaves.
use enrg.Prelude.{
  bytes_eq, ◌≡◌, refl, arith, ◌⊎◌, none, some, unwrap_or, true, All, List, [], ◌∷◌, map, ok,
  ErrorCode, err, code,
}
use enrg.Prelude.Int.{pos}
use enrg.Solana.{Bytes, zero_hash}
use enrg.Samples.{a_runtime, repeat}
use enrg.Merkle.{
  VerifyMerkleProof, manifest_leaf_hash, verify_merkle_proof, next_level, build_merkle_root,
  compute_merkle_root,
}
use enrg.Merkle.Sha256.{hash}
use enrg.Merkle.Tree.{node_at, proof_path, proof_path-root}
use enrg.Merkle.Inputs.{Among, Manifest, Is32, leaf_of, published_inputs, checked_inputs, Clash}
use enrg.Merkle.Verify.{verified, verify_merkle_proof-IsPublished, verify_merkle_proof_complete}
use enrg.Merkle.Errors.{Refusal, verify_merkle_proof-Refusal}

-- The hash of "abc", as FIPS 180-4 gives it.
hash_abc :
    hash (0x61 ∷ 0x62 ∷ 0x63 ∷ [])
    ≡ 0xba ∷ 0x78 ∷ 0x16 ∷ 0xbf ∷ 0x8f ∷ 0x01 ∷ 0xcf ∷ 0xea ∷ 0x41 ∷ 0x41 ∷ 0x40 ∷ 0xde ∷ 0x5d
      ∷ 0xae ∷ 0x22 ∷ 0x23 ∷ 0xb0 ∷ 0x03 ∷ 0x61 ∷ 0xa3 ∷ 0x96 ∷ 0x17 ∷ 0x7a ∷ 0x9c ∷ 0xb4 ∷ 0x10
      ∷ 0xff ∷ 0x61 ∷ 0xf2 ∷ 0x00 ∷ 0x15 ∷ 0xad ∷ []
unfolding hash
hash_abc = refl

abbrev first : Manifest
first = record { manifest_id = repeat 16 1; content_hash = repeat 32 2 }

abbrev second : Manifest
second = record { manifest_id = repeat 16 3; content_hash = repeat 32 4 }

abbrev third : Manifest
third = record { manifest_id = repeat 16 5; content_hash = repeat 32 6 }

abbrev published : List Manifest
published = first ∷ second ∷ third ∷ []

abbrev published_root : Bytes
published_root = unwrap_or (build_merkle_root (map leaf_of published)) zero_hash

abbrev the_accounts : VerifyMerkleProof
the_accounts = record {
  registry_key = 21;
  registry = record {
    authority = 1;
    oracle_authority = 5;
    merkle_root = published_root;
    updated_at = pos 0;
    version = 1;
    manifest_count = 3;
  };
  manifest_key = 22;
  manifest_verification = record {
    manifest_id = repeat 16 5;
    publisher_key = repeat 32 9;
    content_hash = repeat 32 6;
    signature = repeat 64 7;
    created_at = pos 0;
    verified = true;
    manifest_version = 1;
  };
  proof_verification = none;
  verifier = 11;
}

root_exists : build_merkle_root (map leaf_of published) ≡ some published_root
unfolding build_merkle_root
root_exists = refl

abbrev the_path : List Bytes
the_path = proof_path (map leaf_of published) 2

third_leaf : node_at (map leaf_of published) 2 ≡ leaf_of third
unfolding node_at
third_leaf = refl

verify_merkle_proof_complete_example :
    verify_merkle_proof a_runtime the_accounts
      (repeat 16 5)
      the_path
      (node_at (map leaf_of published) 2)
      2
    ≡ ok (verified a_runtime the_accounts the_path)
verify_merkle_proof_complete_example =
    verify_merkle_proof_complete a_runtime the_accounts (map leaf_of published) 2 (omega arith)
      (omega arith) (omega arith) root_exists third_leaf refl

the_path_widths : All Is32 the_path
unfolding proof_path manifest_leaf_hash hash next_level
the_path_widths = (refl, (refl, tt))

accepted :
    verify_merkle_proof a_runtime the_accounts (repeat 16 5) the_path (leaf_of third) 2
    ≡ ok (verified a_runtime the_accounts the_path)
unfolding verify_merkle_proof proof_path bytes_eq next_level hash build_merkle_root
accepted = refl

verify_merkle_proof-IsPublished_example :
    Among third published ⊎ Clash (published_inputs published) (checked_inputs third the_path 2)
verify_merkle_proof-IsPublished_example =
    verify_merkle_proof-IsPublished a_runtime the_accounts (repeat 16 5) the_path (leaf_of third) 2
      first (second ∷ third ∷ []) (verified a_runtime the_accounts the_path)
      ((refl, refl), ((refl, refl), ((refl, refl), tt))) refl refl the_path_widths root_exists
      accepted

-- The third leaf is not at index 1.
refused :
    verify_merkle_proof a_runtime the_accounts (repeat 16 5) the_path (leaf_of third) 1
    ≡ err (code ErrorCode.invalid_proof)
unfolding verify_merkle_proof proof_path bytes_eq next_level hash build_merkle_root
refused = refl

verify_merkle_proof-Refusal_example :
    Refusal the_accounts (repeat 16 5) the_path (leaf_of third) 1 (code ErrorCode.invalid_proof)
verify_merkle_proof-Refusal_example =
    verify_merkle_proof-Refusal a_runtime the_accounts (repeat 16 5) the_path (leaf_of third) 1
      (code ErrorCode.invalid_proof) refused

proof_path-root_example :
    build_merkle_root (map leaf_of published)
    ≡ some (compute_merkle_root (node_at (map leaf_of published) 2) the_path 2)
proof_path-root_example = proof_path-root (map leaf_of published) 2 (omega arith) (omega arith)
