-- ===== src/Manifest/Registered.antt =====
-- What a registered manifest shows, and how the registry changes.
use mathlib.Core.Path.{subst}
use enrg.Prelude.{
  ℕ, suc, ◌+◌, ◌≡◌, refl, sym, ap, arith, Option, none, true, ◌==◌, ok, bytes_eq, bytes_eq→eq,
  require_then, check_then, ok-injective,
}
use enrg.Constants.{instructions_sysvar_id, expected_deployer}
use enrg.Solana.{Pubkey, default_key, Bytes, vacant, vacant-none, Runtime}
use enrg.Messages.{to_bytes, manifest_sign_message}
use enrg.Ed25519.{max_scan_back, verify_ed25519_signature}
use enrg.Ed25519.Sound.{CarriedBy, verify_ed25519_signature_sound}
use enrg.Manifest.{
  ManifestRegistry, ManifestVerification, initialize_manifest_registry, set_oracle_authority,
  update_merkle_root, register_manifest_verification,
}

-- An instruction of the precompile carries the oracle's signature of what the record says.
pub record IsRegistered (rt : Runtime) (registry : ManifestRegistry) (out : ManifestVerification)
    : Type 0 where
  by_oracle : out.publisher_key ≡ to_bytes registry.oracle_authority
  carried :
      CarriedBy rt.instruction_back
        (suc max_scan_back)
        out.signature
        (to_bytes registry.oracle_authority)
        (manifest_sign_message out.manifest_id out.content_hash out.manifest_version)
  at_clock : out.created_at ≡ rt.now
  flagged : out.verified ≡ true

-- A manifest is registered only once, and only with the key of the oracle of the registry; one of
-- the last nine instructions is the Ed25519 precompile's and carries, at its offsets and with
-- indices of 0 or 65,535, that key, the signature and the message of the identifier, the content
-- and the version; and the record holds these values.
pub register_manifest_verification-IsRegistered :
    (rt : Runtime) (existing : Option ManifestVerification) (registry : ManifestRegistry)
    (instructions : Pubkey) (id key content signature : Bytes) (version : ℕ)
    (out : ManifestVerification)
    → register_manifest_verification rt existing registry instructions id key content signature
        version
      ≡ ok out
    → IsRegistered rt registry out
      × (existing ≡ none)
      × (out.manifest_id ≡ id)
      × (out.content_hash ≡ content)
unfolding register_manifest_verification
register_manifest_verification-IsRegistered rt existing registry instructions id key content
      signature version out h =
    let message = manifest_sign_message id content version in
    let (fresh, h₁) = check_then (vacant existing) _ h in
    let (_, h₂) = require_then (instructions == instructions_sysvar_id) _ _ h₁ in
    let (trusted, h₃) = require_then (bytes_eq key (to_bytes registry.oracle_authority)) _ _ h₂ in
    let (verified, h₄) =
      check_then (verify_ed25519_signature rt signature key message instructions) _ h₃ in
    let (_, found) =
      verify_ed25519_signature_sound rt signature key message instructions verified in
    let e = bytes_eq→eq key (to_bytes registry.oracle_authority) trusted in
    let written : ManifestVerification = record {
      manifest_id = id;
      publisher_key = key;
      content_hash = content;
      signature = signature;
      created_at = rt.now;
      verified = true;
      manifest_version = version;
    } in
    let same : written ≡ out = ok-injective written out h₄ in
    let registered : IsRegistered rt registry written = record {
      by_oracle = e;
      carried = rw e at found;
      at_clock = refl;
      flagged = refl;
    } in
    (
      subst (IsRegistered rt registry) same registered,
      vacant-none existing fresh,
      sym (ap (λ o. o.manifest_id) same),
      sym (ap (λ o. o.content_hash) same),
    )

-- A history of the registry: the first initialization, then calls of any kind that succeed.
pub data Registry : ℕ → ManifestRegistry → Type 0 where
  initialized :
      (rt : Runtime) (empty out : ManifestRegistry) (payer : Pubkey)
      → empty.authority ≡ default_key
      → initialize_manifest_registry rt empty payer ≡ ok out
      → Registry 0 out
  initialized_again :
      (rt : Runtime) (payer : Pubkey) {updates : ℕ} {r out : ManifestRegistry}
      → Registry updates r
      → initialize_manifest_registry rt r payer ≡ ok out
      → Registry updates out
  new_oracle :
      (authority oracle : Pubkey) {updates : ℕ} {r out : ManifestRegistry}
      → Registry updates r
      → set_oracle_authority r authority oracle ≡ ok out
      → Registry updates out
  new_root :
      (rt : Runtime) (oracle authority : Pubkey) (root : Bytes) (count : ℕ) {updates : ℕ}
      {r out : ManifestRegistry}
      → Registry updates r
      → update_merkle_root rt r oracle authority root count ≡ ok out
      → Registry (suc updates) out

-- After the first initialization of the manifest registry and any further successful
-- initializations, changes of the oracle and updates of the root, its authority is the deployer
-- and its version is one more than the number of updates.
pub Registry-authority :
    (updates : ℕ) (r : ManifestRegistry)
    → Registry updates r
    → (r.authority ≡ expected_deployer) × (r.version ≡ updates + 1)
unfolding initialize_manifest_registry set_oracle_authority update_merkle_root
Registry-authority updates r (initialized rt empty out payer fresh h) = ground arith
Registry-authority updates r (initialized_again rt payer {r = before} past h) =
    let (a, v) = Registry-authority updates before past in ground arith
Registry-authority updates r (new_oracle authority oracle {r = before} past h) =
    let (a, v) = Registry-authority updates before past in ground arith
Registry-authority _ r (new_root rt oracle authority root count {updates = n} {r = before} past h) =
    let (a, v) = Registry-authority n before past in ground arith
