-- ===== src/Manifest/Tests.antt =====
-- A manifest that the oracle of the registry signs.
use enrg.Prelude.{◌≡◌, refl, true, Option, none, ok}
use enrg.Prelude.Int.{pos}
use enrg.Constants.{expected_deployer, instructions_sysvar_id}
use enrg.Solana.{zero_hash, Runtime}
use enrg.Samples.{a_runtime, repeat, signed_by}
use enrg.Messages.{to_bytes, manifest_sign_message}
use enrg.Ed25519.Sound.{build_data}
use enrg.Manifest.{
  ManifestRegistry, ManifestVerification, initialize_manifest_registry, set_oracle_authority,
  update_merkle_root, register_manifest_verification,
}
use enrg.Manifest.Registered.{IsRegistered, register_manifest_verification-IsRegistered}

abbrev no_registry : ManifestRegistry
no_registry = record {
  authority = 0;
  oracle_authority = 0;
  merkle_root = zero_hash;
  updated_at = pos 0;
  version = 0;
  manifest_count = 0;
}

abbrev new_registry : ManifestRegistry
new_registry = record {
  authority = expected_deployer;
  oracle_authority = expected_deployer;
  merkle_root = zero_hash;
  updated_at = pos 1_000_000;
  version = 1;
  manifest_count = 0;
}

initializes : initialize_manifest_registry a_runtime no_registry expected_deployer ≡ ok new_registry
unfolding initialize_manifest_registry
initializes = refl

abbrev trusting : ManifestRegistry
trusting = record new_registry { oracle_authority = 5 }

trusts_five : set_oracle_authority new_registry expected_deployer 5 ≡ ok trusting
unfolding set_oracle_authority
trusts_five = refl

abbrev rooted : ManifestRegistry
rooted = record trusting { merkle_root = repeat 32 4; version = 2; manifest_count = 3 }

updates_root : update_merkle_root a_runtime trusting 5 expected_deployer (repeat 32 4) 3 ≡ ok rooted
unfolding update_merkle_root
updates_root = refl

-- The instruction before the current one carries the signature of the publisher.
abbrev publishing : Runtime
publishing = record a_runtime {
  instruction_back =
      λ n. signed_by 5 (repeat 64 2) (manifest_sign_message (repeat 16 1) (repeat 32 3) 1);
}

abbrev a_manifest : ManifestVerification
a_manifest = record {
  manifest_id = repeat 16 1;
  publisher_key = to_bytes 5;
  content_hash = repeat 32 3;
  signature = repeat 64 2;
  created_at = pos 1_000_000;
  verified = true;
  manifest_version = 1;
}

registers_manifest :
    register_manifest_verification publishing none trusting instructions_sysvar_id
      (repeat 16 1)
      (to_bytes 5)
      (repeat 32 3)
      (repeat 64 2)
      1
    ≡ ok a_manifest
unfolding register_manifest_verification build_data
registers_manifest = refl

register_manifest_verification-IsRegistered_example :
    IsRegistered publishing trusting a_manifest
    × (◌≡◌ {A = Option ManifestVerification} none none)
    × (a_manifest.manifest_id ≡ repeat 16 1)
    × (a_manifest.content_hash ≡ repeat 32 3)
register_manifest_verification-IsRegistered_example =
    register_manifest_verification-IsRegistered publishing none trusting instructions_sysvar_id
      (repeat 16 1) (to_bytes 5) (repeat 32 3) (repeat 64 2) 1 a_manifest registers_manifest
