-- ===== src/Program/SetUps.antt =====
-- How the setup of the program and the writers of the vault treat the holders of its roles.
use mathlib.Core.Path.{subst}
use enrg.Prelude.{◌≡◌, refl, sym, ap, ◌∙◌, arith, Option, none, some, unwrap_or, ok}
use enrg.Constants.{expected_deployer}
use enrg.Solana.{Pubkey, Runtime}
use enrg.Vault.{Vault, TokenMint}
use enrg.Oracle.{OracleRegistry, initialize_oracle_registry}
use enrg.Treasury.Setup.{initialize_vault, set_vault_authority}
use enrg.Program.Accounts.{Ledger, load}
use enrg.Program.Bootstrap.{new_vault, SetupCall, run_setup}
use enrg.Program.Runs.{Holds, Ends, gives, Ends->>=, Ends-follow}
use enrg.Program.Records.{load-some}
use enrg.Program.Leaves.{KeepsHolders, untouched, written}
use enrg.Program.Authorities.{
  held, Passes, keeps, hands_over, creates, vault_authority, root, oracle_admin, loaded-Passes,
}

-- The deployer of the vault, if there is one, is the expected one.
abbrev pub IsDeployed : Ledger → Type 0
IsDeployed l = Holds (λ (v : Vault). v.deployer ≡ expected_deployer) l.vault

abbrev pub VaultPasses : Pubkey → Ledger → Ledger → Type 0
VaultPasses signer l out =
    Passes (some expected_deployer) (vault_authority l) signer (vault_authority l)
      (vault_authority out)

pub KeepsHolders-IsDeployed :
    (o o' : Option Vault)
    → KeepsHolders o o'
    → Holds (λ (v : Vault). v.deployer ≡ expected_deployer) o
    → Holds (λ (v : Vault). v.deployer ≡ expected_deployer) o'
KeepsHolders-IsDeployed o o' (untouched e) d =
    subst (Holds (λ (v : Vault). v.deployer ≡ expected_deployer)) (sym e) d
KeepsHolders-IsDeployed o o' (written v w e e' (same, _)) d =
    let old = subst (Holds (λ (v : Vault). v.deployer ≡ expected_deployer)) e d in
    subst (Holds (λ (v : Vault). v.deployer ≡ expected_deployer)) (sym e') (same ∙ old)

pub KeepsHolders-same :
    (o o' : Option Vault)
    → KeepsHolders o o'
    → held (λ (v : Vault). v.authority) o' ≡ held (λ (v : Vault). v.authority) o
KeepsHolders-same o o' (untouched e) = ap (held (λ (v : Vault). v.authority)) e
KeepsHolders-same o o' (written v w e e' (_, same)) =
    ap (held (λ (v : Vault). v.authority)) e'
    ∙ ap some same
    ∙ sym (ap (held (λ (v : Vault). v.authority)) e)

initialize_vault-Passes :
    (o : Option Vault) (signer mint : Pubkey) (t : TokenMint) (w : Vault)
    → Holds (λ (v : Vault). v.deployer ≡ expected_deployer) o
    → initialize_vault (unwrap_or o new_vault) signer mint t ≡ ok w
    → (w.deployer ≡ expected_deployer)
      × Passes
          (some expected_deployer)
          (held (λ (v : Vault). v.authority) o)
          signer
          (held (λ (v : Vault). v.authority) o)
          (some w.authority)
unfolding initialize_vault
initialize_vault-Passes none signer mint t w d h = (ground arith, creates refl (ground arith))
initialize_vault-Passes (some v) signer mint t w d h = (ground arith, keeps (ground arith))

set_vault_authority-Passes :
    (v w : Vault) (signer k : Pubkey)
    → set_vault_authority v signer k ≡ ok w
    → (v.authority ≡ signer) × (w.deployer ≡ v.deployer)
unfolding set_vault_authority
set_vault_authority-Passes v w signer k h = ground arith

-- What the phase of the setup does to the roles that it touches.
abbrev pub SetUp : Pubkey → Ledger → Ledger → Type 0
SetUp signer l out =
    (IsDeployed out × VaultPasses signer l out)
    × Passes (some expected_deployer) (root l.oracle_registry) signer (root l.oracle_registry)
        (root out.oracle_registry)
    × Passes (some expected_deployer) (root l.oracle_registry) signer
        (oracle_admin l.oracle_registry) (oracle_admin out.oracle_registry)
    × (out.policy_registry ≡ l.policy_registry)
    × (out.council.governance ≡ l.council.governance)
    × (out.quorum.config ≡ l.quorum.config)

initialize_oracle_registry-Passes :
    (o : Option OracleRegistry) (signer : Pubkey) (r : OracleRegistry)
    → initialize_oracle_registry o signer ≡ ok r
    → (o ≡ none) × (r.authority ≡ signer) × (signer ≡ expected_deployer)
unfolding initialize_oracle_registry
initialize_oracle_registry-Passes none signer r h = (refl, ground arith, ground arith)
initialize_oracle_registry-Passes (some _) signer r h = absurd (ground arith)

pub run_setup-SetUp :
    (rt : Runtime) (l : Ledger) (signer : Pubkey) (c : SetupCall)
    → IsDeployed l
    → Ends (SetUp signer l) (run_setup rt l signer c)
unfolding run_setup
run_setup-SetUp rt l signer SetupCall.initialize_token d =
    let same : SetUp signer l l = ((d, keeps refl), keeps refl, keeps refl, refl, refl, refl) in
    search (Ends->>=, gives, same)
run_setup-SetUp rt l signer (SetupCall.initialize_vault mint) d =
    Ends->>= (load l.token_mint) _ (λ t _.
      Ends->>= (initialize_vault (unwrap_or l.vault new_vault) signer mint t) _ (λ w e. gives _ (
        initialize_vault-Passes l.vault signer mint t w d e,
        keeps refl,
        keeps refl,
        refl,
        refl,
        refl,
      )))
run_setup-SetUp rt l signer (SetupCall.set_vault_authority k) d =
    Ends-follow (load l.vault) _ (load-some l.vault) (λ v found.
      Ends->>= (set_vault_authority v signer k) _ (λ w e.
        let (signed, same) = set_vault_authority-Passes v w signer k e in
        let old = subst (Holds (λ (v : Vault). v.deployer ≡ expected_deployer)) found d in
        gives _ (
          (same ∙ old, loaded-Passes _ _ _ signer l.vault v found (hands_over (ap some signed))),
          keeps refl,
          keeps refl,
          refl,
          refl,
          refl,
        )))
run_setup-SetUp rt l signer SetupCall.initialize_oracle_registry d =
    Ends->>= (initialize_oracle_registry l.oracle_registry signer) _ (λ r e.
      let (new, _, deployer) = initialize_oracle_registry-Passes l.oracle_registry signer r e in
      let by = ap some (sym deployer) in
      gives _ (
        (d, keeps refl),
        creates (ap (held (λ (x : OracleRegistry). x.authority)) new) by,
        creates (ap (held (λ (x : OracleRegistry). x.oracle_admin)) new) by,
        refl,
        refl,
        refl,
      ))
run_setup-SetUp rt l signer _ d =
    let same : SetUp signer l l = ((d, keeps refl), keeps refl, keeps refl, refl, refl, refl) in
    search (Ends->>=, gives, same)
