-- ===== src/Manifest.antt =====
-- The registry of manifests and the registration of a manifest, which its publisher signs:
-- programs/enrg-mvp/src/instructions/manifest_registry.rs and manifest_verification.rs, with
-- state/manifest_registry.rs and state/manifest_verification.rs.
pub mod Registered
mod Tests
use enrg.Prelude.{
  ℕ, Bool, true, Option, none, some, List, ◌==◌, if◌then◌else◌, bytes_eq, checked_add, u64_max,
  Result, ok, ErrorCode, require, ok_or, ◌>>=◌, ◌>>◌,
}
use enrg.Prelude.Int.{ℤ}
use enrg.Constants.{expected_deployer, instructions_sysvar_id}
use enrg.Solana.{Pubkey, default_key, Bytes, zero_hash, vacant, constraint, Runtime}
use enrg.Messages.{to_bytes, manifest_sign_message}
use enrg.Ed25519.{verify_ed25519_signature}

-- state/manifest_registry.rs
pub record ManifestRegistry : Type 0 where
  pub authority : Pubkey
  pub oracle_authority : Pubkey
  pub merkle_root : Bytes
  pub updated_at : ℤ
  pub version : ℕ
  pub manifest_count : ℕ

-- state/manifest_verification.rs
pub record ManifestVerification : Type 0 where
  pub manifest_id : Bytes
  pub publisher_key : Bytes
  pub content_hash : Bytes
  pub signature : Bytes
  pub created_at : ℤ
  pub verified : Bool
  pub manifest_version : ℕ

-- The registry is all zero when `init_if_needed` has just made it.
unfoldable pub initialize_manifest_registry :
    Runtime → ManifestRegistry → Pubkey → Result ManifestRegistry
initialize_manifest_registry rt registry payer =
    if registry.authority == default_key
    then require (payer == expected_deployer) ErrorCode.unauthorized_deployer
      >> ok (record {
        authority = payer;
        oracle_authority = payer;
        merkle_root = zero_hash;
        updated_at = rt.now;
        version = 1;
        manifest_count = 0;
      })
    else ok registry

unfoldable pub set_oracle_authority : ManifestRegistry → Pubkey → Pubkey → Result ManifestRegistry
set_oracle_authority registry authority new_oracle = do
  constraint (registry.authority == authority) 2001
  ok (record registry { oracle_authority = new_oracle })

-- Two signers: the authority of the registry and its oracle.
unfoldable pub update_merkle_root :
    Runtime → ManifestRegistry → Pubkey → Pubkey → Bytes → ℕ → Result ManifestRegistry
update_merkle_root rt registry oracle authority new_root manifest_count = do
  constraint (registry.authority == authority) 2001
  constraint (oracle == registry.oracle_authority) 2012
  version ← ok_or (checked_add u64_max registry.version 1) ErrorCode.registry_overflow
  ok (record registry {
    merkle_root = new_root;
    updated_at = rt.now;
    version = version;
    manifest_count = manifest_count;
  })

abbrev pub query_merkle_root : ManifestRegistry → Bytes
query_merkle_root registry = registry.merkle_root

unfoldable pub register_manifest_verification :
    Runtime
    → Option ManifestVerification
    → ManifestRegistry
    → Pubkey
    → Bytes
    → Bytes
    → Bytes
    → Bytes
    → ℕ
    → Result ManifestVerification
unfolding verify_ed25519_signature manifest_sign_message to_bytes
register_manifest_verification rt existing registry instructions manifest_id publisher_key
      content_hash signature manifest_version =
    let message = manifest_sign_message manifest_id content_hash manifest_version in
    do
      vacant existing
      require (instructions == instructions_sysvar_id) ErrorCode.invalid_instructions_account
      require (bytes_eq publisher_key (to_bytes registry.oracle_authority))
          ErrorCode.untrusted_manifest_publisher
      verify_ed25519_signature rt signature publisher_key message instructions
      ok (record {
        manifest_id = manifest_id;
        publisher_key = publisher_key;
        content_hash = content_hash;
        signature = signature;
        created_at = rt.now;
        verified = true;
        manifest_version = manifest_version;
      })
