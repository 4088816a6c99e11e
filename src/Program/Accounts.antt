-- ===== src/Program/Accounts.antt =====
-- The accounts of programs/enrg-mvp as a whole: what is stored at which address, and how Anchor
-- loads an account and stores it again. An account that the program keeps at one address only is
-- a field; the others are maps from addresses, one for each type of account. The profiles belong
-- to programs/enrg-profile.
use enrg.Prelude.{
  ℕ, ◌==◌, if◌then◌else◌, Option, none, some, List, [], ◌∷◌, Result, ok, err, framework,
}
use enrg.Solana.{Pubkey, Bytes, Runtime}
use enrg.Messages.{to_bytes}
use enrg.Vault.{Vault, TokenMint}
use enrg.Treasury.Setup.{Config}
use enrg.Treasury.Stakes.{StakeInfo}
use enrg.Oracle.{OracleRegistry}
use enrg.Policy.{PolicyRegistry}
use enrg.Manifest.{ManifestRegistry, ManifestVerification}
use enrg.Merkle.{MerkleProofVerification}
use enrg.Device.{EnergyProducer, OwnerDevices}
use enrg.Profile.{EnergyProfile}
use enrg.Reputation.{Reputation}
use enrg.Pool.{Pool, PoolContribution}
use enrg.Vesting.{FounderVesting}
use enrg.Governance.{GovernanceState, Proposal}
use enrg.Poi.{PoiCommitment}
use enrg.Quorum.{OracleQuorumConfig, OracleAttestation, OracleVote, OracleStake}

abbrev pub Accounts : Type 0 → Type 0
Accounts A = Pubkey → Option A

-- `Account<'info, A>`: 3012 is Anchor's AccountNotInitialized.
abbrev pub load : {A : Type 0} → Option A → Result A
load none = err (framework 3_012)
load (some a) = ok a

-- What Anchor writes back when the handler has returned.
abbrev pub store : {A : Type 0} → Accounts A → Pubkey → A → Accounts A
store m key a = λ k. if k == key then some a else m k

-- An optional account that is passed.
abbrev pub store_if : {A : Type 0} → Accounts A → Pubkey → Option A → Accounts A
store_if m key none = m
store_if m key (some a) = store m key a

-- The address of a text and keys.
abbrev pub pda : Runtime → Bytes → List Pubkey → Pubkey
pda rt name [] = rt.find_program_address (name ∷ [])
pda rt name (a ∷ []) = rt.find_program_address (name ∷ to_bytes a ∷ [])
pda rt name (a ∷ b ∷ _) = rt.find_program_address (name ∷ to_bytes a ∷ to_bytes b ∷ [])

pub record Manifests : Type 0 where
  pub registry : Option ManifestRegistry
  pub verifications : Accounts ManifestVerification
  pub proofs : Accounts MerkleProofVerification

pub record Devices : Type 0 where
  pub producers : Accounts EnergyProducer
  pub owner_devices : Accounts OwnerDevices
  pub reputations : Accounts Reputation
  pub profiles : Accounts EnergyProfile

pub record Pools : Type 0 where
  pub pools : Accounts Pool
  pub shares : Accounts PoolContribution

pub record Council : Type 0 where
  pub governance : Option GovernanceState
  pub proposals : Accounts Proposal

pub record Attestations : Type 0 where
  pub config : Option OracleQuorumConfig
  pub attestations : Accounts OracleAttestation
  pub votes : Accounts OracleVote
  pub stakes : Accounts OracleStake

pub record Ledger : Type 0 where
  pub vault : Option Vault
  pub token_mint : Option TokenMint
  pub config : Option Config
  pub oracle_registry : Option OracleRegistry
  pub manifests : Manifests
  pub policy_registry : Option PolicyRegistry
  pub devices : Devices
  pub pools : Pools
  pub stakes : Accounts StakeInfo
  pub vesting : Option FounderVesting
  pub council : Council
  pub commitments : Accounts PoiCommitment
  pub quorum : Attestations

-- Before the first instruction.
abbrev pub genesis : Ledger
genesis = record {
  vault = none;
  token_mint = none;
  config = none;
  oracle_registry = none;
  manifests = record { registry = none; verifications = λ k. none; proofs = λ k. none };
  policy_registry = none;
  devices = record {
    producers = λ k. none;
    owner_devices = λ k. none;
    reputations = λ k. none;
    profiles = λ k. none;
  };
  pools = record { pools = λ k. none; shares = λ k. none };
  stakes = λ k. none;
  vesting = none;
  council = record { governance = none; proposals = λ k. none };
  commitments = λ k. none;
  quorum = record {
    config = none;
    attestations = λ k. none;
    votes = λ k. none;
    stakes = λ k. none;
  };
}

-- What an instruction mints and burns of the token.
pub record Flow : Type 0 where
  pub minted : ℕ
  pub burned : ℕ

abbrev pub no_flow : Flow
no_flow = record { minted = 0; burned = 0 }
