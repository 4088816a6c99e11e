-- ===== src/Program/Tests.antt =====
-- Instructions from the empty ledger, and the theorems at them.
use enrg.Prelude.{◌≡◌, ◌≢◌, refl, true, some, List, ok}
use enrg.Constants.{expected_deployer, founder_wallet, max_supply_atomic, founder_allocation_atomic}
use enrg.Solana.{Pubkey, Bytes, default_key, TokenAccount}
use enrg.Vault.{Vault, TokenMint}
use enrg.Treasury.Setup.{
  initialize_token, initialize_vault, allocate_founder, lock_founder, founder_premine_not_minted,
  set_vault_authority,
}
use enrg.Samples.{a_runtime}
use enrg.Program.Accounts.{Ledger, no_flow, genesis}
use enrg.Program.Bootstrap.{SetupCall, new_vault, run_setup}
use enrg.Program.Payouts.{EconomyCall, StakeCall, run_economy}
use enrg.Program.{Call, run}
use enrg.Program.Runs.{Run, stays, steps}
use enrg.Program.Supply.{IsCapEnforced, Run-IsSupplied}
use enrg.Program.Balance.{IsBalanced}
use enrg.Program.History.{Anything}
use enrg.Program.Roles.{AreHeld, roles_change_by_holder}
use enrg.Program.Books.{staking_never_succeeds}
use enrg.Oracle.{initialize_oracle_registry, add_oracle}
use enrg.Quorum.{init_oracle_quorum}
use enrg.Program.Bootstrap.{OracleCall, run_oracles}
use enrg.Prelude.{[], ◌∷◌}
use enrg.Oracle.{OracleRegistry}
use enrg.Program.Valid.{AreValid, ledger-AreValid}
use enrg.Program.Votes.{QuorumCall, run_quorum}
use enrg.Prelude.{contains}

-- Every address is 7.
abbrev pub derive : List Bytes → Pubkey
derive seeds = 7

abbrev token_record : TokenMint
token_record = record {
  mint = 7;
  mint_authority = 7;
  buyback_account = default_key;
  staking_account = default_key;
  dao_account = default_key;
  emergency_account = default_key;
  founder_account = default_key;
  founder_minted = 0;
  decimals = 9;
}

abbrev with_token : Ledger
with_token = record genesis { token_mint = some token_record }

token_set_up :
    run a_runtime derive genesis expected_deployer (Call.setup SetupCall.initialize_token)
    ≡ ok (with_token, no_flow)
unfolding run run_setup initialize_token
token_set_up = refl

abbrev first_vault : Vault
first_vault = record new_vault {
  deployer = expected_deployer;
  authority = expected_deployer;
  protocol_version = 1;
  max_supply = max_supply_atomic;
  emission_k = 10;
}

abbrev with_vault : Ledger
with_vault = record with_token { vault = some first_vault }

vault_set_up :
    run a_runtime derive with_token expected_deployer (Call.setup (SetupCall.initialize_vault 7))
    ≡ ok (with_vault, no_flow)
unfolding run run_setup initialize_vault
vault_set_up = refl

abbrev founder_account : TokenAccount
founder_account = record { key = 30; mint = 7; owner = founder_wallet; amount = 0 }

abbrev premined : Ledger
premined = record with_token {
  vault = some (record first_vault { total_supply = founder_allocation_atomic });
  token_mint = some (record token_record { founder_account = 30; founder_minted = 1 });
}

premine :
    run a_runtime derive with_vault founder_wallet
      (Call.economy (EconomyCall.allocate_founder founder_account))
    ≡ ok (premined, record { minted = founder_allocation_atomic; burned = 0 })
unfolding run run_economy allocate_founder lock_founder founder_premine_not_minted
premine = refl

launch : Run IsCapEnforced derive genesis founder_allocation_atomic 0 premined
launch =
    steps a_runtime founder_wallet (Call.economy (EconomyCall.allocate_founder founder_account))
      (steps a_runtime expected_deployer (Call.setup (SetupCall.initialize_vault 7))
        (steps a_runtime expected_deployer (Call.setup SetupCall.initialize_token) stays refl
          token_set_up)
        refl vault_set_up)
      refl premine

Run-IsSupplied_example :
    IsBalanced
      (record first_vault { total_supply = founder_allocation_atomic })
      founder_allocation_atomic
      0
Run-IsSupplied_example = Run-IsSupplied derive founder_allocation_atomic 0 premined launch

bare : Run Anything derive genesis 0 0 with_vault
bare =
    steps a_runtime expected_deployer (Call.setup (SetupCall.initialize_vault 7))
      (steps a_runtime expected_deployer (Call.setup SetupCall.initialize_token) stays tt
        token_set_up)
      tt vault_set_up

abbrev handed_over : Ledger
handed_over = record with_token { vault = some (record first_vault { authority = 5 }) }

hand_over :
    run a_runtime derive with_vault expected_deployer (Call.setup (SetupCall.set_vault_authority 5))
    ≡ ok (handed_over, no_flow)
unfolding run run_setup set_vault_authority
hand_over = refl

roles_change_by_holder_example : AreHeld expected_deployer with_vault handed_over
roles_change_by_holder_example =
    roles_change_by_holder derive a_runtime 0 0 with_vault handed_over expected_deployer
      (Call.setup (SetupCall.set_vault_authority 5)) no_flow bare hand_over

staking_never_succeeds_example :
    run a_runtime derive with_vault 5 (Call.stakes (StakeCall.stake 40 10))
    ≢ ok (with_vault, no_flow)
staking_never_succeeds_example =
    staking_never_succeeds derive a_runtime 0 0 with_vault 5 (StakeCall.stake 40 10)
      (with_vault, no_flow) bare

abbrev first_registry : OracleRegistry
first_registry = record {
  authority = expected_deployer;
  oracle_admin = expected_deployer;
  oracles = [];
}

abbrev with_registry : Ledger
with_registry = record genesis { oracle_registry = some first_registry }

registry_set_up :
    run a_runtime derive genesis expected_deployer (Call.setup SetupCall.initialize_oracle_registry)
    ≡ ok (with_registry, no_flow)
unfolding run run_setup initialize_oracle_registry
registry_set_up = refl

abbrev with_oracle : Ledger
with_oracle = record genesis { oracle_registry = some (record first_registry { oracles = 5 ∷ [] }) }

oracle_added :
    run a_runtime derive with_registry expected_deployer (Call.oracles (OracleCall.add_oracle 5))
    ≡ ok (with_oracle, no_flow)
unfolding run run_oracles add_oracle contains
oracle_added = refl

abbrev with_quorum : Ledger
with_quorum = record with_oracle {
  quorum = record genesis.quorum {
    config = some (record {
      authority = expected_deployer;
      required = true;
      threshold = 3;
      reward_per_vote = 100;
    });
  };
}

quorum_set_up :
    run a_runtime derive with_oracle expected_deployer
      (Call.quorum (QuorumCall.init_oracle_quorum true 3 100))
    ≡ ok (with_quorum, no_flow)
unfolding run run_quorum init_oracle_quorum
quorum_set_up = refl

ledger-AreValid_example : AreValid with_quorum
ledger-AreValid_example = ledger-AreValid derive 0 0 with_quorum (
    steps a_runtime expected_deployer (Call.quorum (QuorumCall.init_oracle_quorum true 3 100))
      (steps a_runtime expected_deployer (Call.oracles (OracleCall.add_oracle 5))
        (steps a_runtime expected_deployer (Call.setup SetupCall.initialize_oracle_registry) stays
          tt registry_set_up)
        tt oracle_added)
      tt quorum_set_up)
