-- ===== src/Program/Bootstrap.antt =====
-- The first three phases of programs/enrg-mvp/src/lib.rs: the initialization of the protocol, the
-- oracles, and the policies. A handler's accounts are loaded from the ledger, and stored again.
use enrg.Prelude.{ℕ, Option, some, List, [], ◌∷◌, unwrap_or, Result, ok, ◌>>=◌}
use enrg.Prelude.Int.{pos}
use enrg.Solana.{Pubkey, default_key, Bytes, zero_hash, codes, Runtime, TokenAccount}
use enrg.Messages.{to_bytes}
use enrg.Profile.{mint_authority_pda}
use enrg.Vault.{Vault}
use enrg.Treasury.Setup
use enrg.Oracle
use enrg.Manifest
use enrg.Manifest.{ManifestRegistry}
use enrg.Merkle
use enrg.Policy
use enrg.Policy.{PolicyRegistry, PolicyUpdate}
use enrg.Oracle.{OracleRegistry}
use enrg.Program.Accounts.{load, store, pda, Manifests, Ledger}

-- What `init_if_needed` creates: every byte is zero.
abbrev pub new_vault : Vault
new_vault = record {
  deployer = default_key;
  authority = default_key;
  protocol_version = 0;
  total_supply = 0;
  max_supply = 0;
  emission_k = 0;
  total_energy_wh = 0;
  total_producers = 0;
  total_proofs = 0;
  network_energy_30d = 0;
  network_energy_updated_at = pos 0;
}

abbrev pub new_manifest_registry : ManifestRegistry
new_manifest_registry = record {
  authority = default_key;
  oracle_authority = default_key;
  merkle_root = zero_hash;
  updated_at = pos 0;
  version = 0;
  manifest_count = 0;
}

abbrev pub src_mint : Runtime → Pubkey
src_mint rt = pda rt (codes "src-mint") []

abbrev pub manifest_registry_key : Runtime → Pubkey
manifest_registry_key rt = pda rt (codes "manifest-registry") []

-- Phase 1, the manifests. `update_merkle_root` has the oracle as a second signer; the sysvar and
-- the verified manifest are addresses that the caller passes.
pub data ManifestCall : Type 0 where
  initialize_manifest_registry : ManifestCall
  update_merkle_root : Pubkey → Bytes → ℕ → ManifestCall
  set_oracle_authority : Pubkey → ManifestCall
  register_manifest_verification : Pubkey → Bytes → Bytes → Bytes → Bytes → ℕ → ManifestCall
  verify_merkle_proof : Pubkey → Bytes → List Bytes → Bytes → ℕ → ManifestCall

abbrev verification_key : Runtime → Bytes → Pubkey
verification_key rt id = rt.find_program_address (codes "manifest-verification" ∷ id ∷ [])

abbrev proof_key : Runtime → Bytes → Pubkey
proof_key rt id =
    rt.find_program_address
      (codes "merkle-proof-verification" ∷ id ∷ to_bytes (manifest_registry_key rt) ∷ [])

unfoldable pub run_manifests : Runtime → Manifests → Pubkey → ManifestCall → Result Manifests
run_manifests rt m signer initialize_manifest_registry = do
  registry ←
      Manifest.initialize_manifest_registry rt (unwrap_or m.registry new_manifest_registry) signer
  ok (record m { registry = some registry })
run_manifests rt m signer (update_merkle_root oracle new_root manifest_count) = do
  registry ← load m.registry
  updated ← Manifest.update_merkle_root rt registry oracle signer new_root manifest_count
  ok (record m { registry = some updated })
run_manifests rt m signer (set_oracle_authority new_oracle) = do
  registry ← load m.registry
  updated ← Manifest.set_oracle_authority registry signer new_oracle
  ok (record m { registry = some updated })
run_manifests rt m signer
      (register_manifest_verification instructions id publisher hash s version) =
    let key = verification_key rt id in
    do
      registry ← load m.registry
      verification ←
          Manifest.register_manifest_verification rt (m.verifications key) registry instructions id
            publisher hash s version
      ok (record m { verifications = store m.verifications key verification })
run_manifests rt m signer (verify_merkle_proof manifest_key id proof_path leaf_hash position) =
    let key = proof_key rt id in
    do
      registry ← load m.registry
      manifest ← load (m.verifications manifest_key)
      proof ←
          Merkle.verify_merkle_proof rt
            (record {
              registry_key = manifest_registry_key rt;
              registry = registry;
              manifest_key = manifest_key;
              manifest_verification = manifest;
              proof_verification = m.proofs key;
              verifier = signer;
            })
            id proof_path leaf_hash position
      ok (record m { proofs = store m.proofs key proof })

-- The rest of phase 1. The token accounts and the mint of the vault are those that the caller
-- passes.
pub data SetupCall : Type 0 where
  initialize_token : SetupCall
  initialize_vault : Pubkey → SetupCall
  initialize_funds : TokenAccount → TokenAccount → TokenAccount → TokenAccount → SetupCall
  set_vault_authority : Pubkey → SetupCall
  init_config : Pubkey → Pubkey → SetupCall
  initialize_oracle_registry : SetupCall
  manifest : ManifestCall → SetupCall

unfoldable pub run_setup : Runtime → Ledger → Pubkey → SetupCall → Result Ledger
run_setup rt l signer initialize_token = do
  token_mint ← Setup.initialize_token l.token_mint signer (src_mint rt) (mint_authority_pda rt)
  ok (record l { token_mint = some token_mint })
run_setup rt l signer (initialize_vault mint) = do
  token_mint ← load l.token_mint
  vault ← Setup.initialize_vault (unwrap_or l.vault new_vault) signer mint token_mint
  ok (record l { vault = some vault })
run_setup rt l signer (initialize_funds buyback staking dao emergency) = do
  vault ← load l.vault
  token_mint ← load l.token_mint
  funded ← Setup.initialize_funds rt (record {
    vault = vault;
    token_mint = token_mint;
    mint = src_mint rt;
    buyback_account = buyback;
    staking_account = staking;
    dao_account = dao;
    emergency_account = emergency;
    authority = signer;
  })
  ok (record l { token_mint = some funded })
run_setup rt l signer (set_vault_authority new_authority) = do
  vault ← load l.vault
  updated ← Setup.set_vault_authority vault signer new_authority
  ok (record l { vault = some updated })
run_setup rt l signer (init_config oracle mint) = do
  config ← Setup.init_config l.config signer oracle mint
  ok (record l { config = some config })
run_setup rt l signer initialize_oracle_registry = do
  registry ← Oracle.initialize_oracle_registry l.oracle_registry signer
  ok (record l { oracle_registry = some registry })
run_setup rt l signer (manifest call) = do
  manifests ← run_manifests rt l.manifests signer call
  ok (record l { manifests = manifests })

-- Phase 2.
pub data OracleCall : Type 0 where
  add_oracle remove_oracle set_oracle_admin set_oracle_registry_authority : Pubkey → OracleCall

unfoldable pub run_oracles : OracleRegistry → Pubkey → OracleCall → Result OracleRegistry
run_oracles r signer (add_oracle oracle) = Oracle.add_oracle r signer oracle
run_oracles r signer (remove_oracle oracle) = Oracle.remove_oracle r signer oracle
run_oracles r signer (set_oracle_admin admin) = Oracle.set_oracle_admin r signer admin
run_oracles r signer (set_oracle_registry_authority authority) =
    Oracle.set_oracle_registry_authority r signer authority

-- Phase 3. The number is the bump of the address.
pub data PolicyCall : Type 0 where
  initialize_policy_registry : ℕ → PolicyCall
  update_policy : PolicyUpdate → PolicyCall
  set_policy_authority : Pubkey → PolicyCall

unfoldable pub run_policies :
    Runtime → Option PolicyRegistry → Pubkey → PolicyCall → Result PolicyRegistry
run_policies rt o signer (initialize_policy_registry bump) =
    Policy.initialize_policy_registry rt o signer bump
run_policies rt o signer (update_policy update) = do
  registry ← load o
  Policy.update_policy rt registry signer update
run_policies rt o signer (set_policy_authority new_authority) = do
  registry ← load o
  Policy.set_policy_authority rt registry signer new_authority
