-- ===== src/Samples.antt =====
-- Accounts, a report and a runtime for the runs and examples of the other modules.
use enrg.Prelude.{ℕ, zero, suc, false, none, [], ◌∷◌, ok}
use enrg.Prelude.Int.{pos}
use enrg.Constants.{
  max_supply_atomic, ed25519_program_id, instructions_sysvar_id, enrg_profile_program_id,
}
use enrg.Solana.{Pubkey, default_key, Bytes, TokenAccount, Relative, Runtime}
use enrg.Messages.{OracleReport, to_bytes, device_message_to_sign, oracle_message_to_sign}
use enrg.Ed25519.Sound.{build_data}
use enrg.Device.{DeviceState, DeviceTier, EnergyProducer, OwnerDevices}
use enrg.Oracle.{OracleRegistry}
use enrg.Quorum.{OracleQuorumConfig, OracleStake}
use enrg.Vault.{Vault, TokenMint}
use enrg.Profile.{EnergyProfile}
use enrg.Mint.{MintContext, MintState, Split}

abbrev pub repeat : ℕ → ℕ → Bytes
repeat zero b = []
repeat (suc n) b = b ∷ repeat n b

abbrev pub a_report : OracleReport
a_report = record {
  oracle = 5;
  device_id = 3;
  nonce = 1;
  device_timestamp = pos 999_990;
  verified_at = pos 999_995;
  energy_wh = 50_000;
  device_signature = repeat 64 1;
  oracle_signature = repeat 64 2;
}

abbrev pub signed_by : Pubkey → Bytes → Bytes → Relative
signed_by key signature message =
    Relative.found (record {
      program_id = ed25519_program_id;
      body = build_data signature (to_bytes key) message;
    })

-- The two instructions before the current one carry the signatures of the report.
abbrev pub a_transaction : ℕ → Relative
a_transaction zero = Relative.found (record { program_id = 9; body = [] })
a_transaction (suc zero) = signed_by 5 (repeat 64 2) (oracle_message_to_sign a_report)
a_transaction (suc (suc zero)) = signed_by 3 (repeat 64 1) (device_message_to_sign a_report)
a_transaction _ = Relative.out_of_range

abbrev pub a_runtime : Runtime
a_runtime = record {
  now = pos 1_000_000;
  find_program_address = λ seeds. 7;
  sha256 = λ bytes. repeat 32 8;
  invoke = λ call. ok tt;
  instruction_back = a_transaction;
}

abbrev pub a_producer : EnergyProducer
a_producer = record {
  authority = 11;
  device_id = 3;
  nonce = 0;
  energy_wh = 0;
  timestamp = pos 0;
  state = DeviceState.active;
  tier = DeviceTier.basic;
  month_energy_wh = 0;
  month_start_ts = pos 0;
  claim_nonce = 1;
  claimed_at = pos 900_000;
  revoked = false;
  rotated_to = default_key;
}

abbrev pub a_counter : OwnerDevices
a_counter = record { owner = 11; total_claimed = 1; active_count = 1 }

abbrev pub a_vault : Vault
a_vault = record {
  deployer = 1;
  authority = 1;
  protocol_version = 1;
  total_supply = 0;
  max_supply = max_supply_atomic;
  emission_k = 0;
  total_energy_wh = 0;
  total_producers = 0;
  total_proofs = 0;
  network_energy_30d = 0;
  network_energy_updated_at = pos 0;
}

abbrev pub a_profile : EnergyProfile
a_profile = record {
  authority = 11;
  device_id = 3;
  rated_power = 100_000;
  device_type = [];
  location = [];
  device_energy_30d = 0;
  device_energy_updated_at = pos 900_000;
  bump = 255;
}

abbrev pub a_registry : OracleRegistry
a_registry = record { authority = 1; oracle_admin = 1; oracles = 4 ∷ 5 ∷ [] }

abbrev pub a_stake : OracleStake
a_stake = record { oracle = 5; lamports = 1_000_000; joined_at = pos 1; slashed = false }

abbrev pub a_config : OracleQuorumConfig
a_config = record { authority = 1; required = false; threshold = 2; reward_per_vote = 100 }

abbrev pub a_token_mint : TokenMint
a_token_mint = record {
  mint = 20;
  mint_authority = 7;
  buyback_account = 21;
  staking_account = 22;
  dao_account = 23;
  emergency_account = 24;
  founder_account = 25;
  founder_minted = 0;
  decimals = 9;
}

abbrev pub a_token_account : TokenAccount
a_token_account = record { key = 30; mint = 20; owner = 11; amount = 0 }

abbrev pub a_context : MintContext
a_context = record {
  producer_key = 40;
  submitter = 5;
  producer_owner = 11;
  token_mint = a_token_mint;
  mint_key = 20;
  mint_authority = 7;
  user_token_account = a_token_account;
  buyback_account = 21;
  staking_account = 22;
  dao_account = 23;
  emergency_account = 24;
  instructions = instructions_sysvar_id;
  profile_program = enrg_profile_program_id;
  oracle_registry = a_registry;
  policy_registry = none;
  oracle_quorum_config = a_config;
  attestation = none;
}

abbrev pub a_state : MintState
a_state = record {
  producer = a_producer;
  vault = a_vault;
  profile = a_profile;
  reputation = none;
  pool = none;
  pool_share = none;
}

-- What a mint of the report makes of these accounts.
abbrev pub a_split : Split
a_split = record {
  user = 42_500_000;
  buyback = 1_500_000;
  staking = 3_000_000;
  dao = 2_250_000;
  emergency = 750_000;
}

abbrev pub minted : MintState
minted = record a_state {
  producer = record a_producer {
    nonce = 1;
    timestamp = pos 999_995;
    energy_wh = 50_000;
    month_energy_wh = 50_000;
    month_start_ts = pos 1_000_000;
  };
  vault = record a_vault {
    total_supply = 50_000_000;
    total_energy_wh = 50_000;
    total_proofs = 1;
    network_energy_30d = 50_000;
    network_energy_updated_at = pos 1_000_000;
  };
  profile = record a_profile {
    device_energy_30d = 50_000;
    device_energy_updated_at = pos 1_000_000;
  };
}
