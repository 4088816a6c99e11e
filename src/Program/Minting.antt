-- ===== src/Program/Minting.antt =====
-- Phase 4 of programs/enrg-mvp/src/lib.rs: the mint of energy, with the accounts that it loads from
-- the ledger and stores again.
use enrg.Prelude.{Bool, true, false, Option, none, some, List, [], ◌∷◌, Result, ok, ◌>>=◌}
use enrg.Solana.{Pubkey, Bytes, codes, Runtime, TokenAccount}
use enrg.Messages.{OracleReport, to_bytes}
use enrg.Profile.{mint_authority_pda}
use enrg.Device.{EnergyProducer}
use enrg.Mint.{Attested, MintContext, MintState, mint_energy}
use enrg.Mint.Distribution.{amount_of}
use enrg.Program.Accounts.{Accounts, load, store, store_if, pda, Ledger, Flow}
use enrg.Program.Bootstrap.{src_mint}

-- An optional account of a mint: the address, and whether it is passed.
abbrev pub passed : {A : Type 0} → Accounts A → Option Pubkey → Result (Option A)
passed m none = ok none
passed m (some key) = do a ← load (m key); ok (some a)

abbrev pub store_passed : {A : Type 0} → Accounts A → Option Pubkey → Option A → Accounts A
store_passed m none a = m
store_passed m (some key) a = store_if m key a

-- Phase 4. The addresses that the caller of `mint_energy` passes; `policies` and `reputation` say
-- whether those optional accounts are passed.
pub record MintAccounts : Type 0 where
  pub producer : Pubkey
  pub producer_owner : Pubkey
  pub user_token_account : TokenAccount
  pub buyback_account : Pubkey
  pub staking_account : Pubkey
  pub dao_account : Pubkey
  pub emergency_account : Pubkey
  pub instructions : Pubkey
  pub profile_program : Pubkey
  pub reputation : Bool
  pub pool : Option Pubkey
  pub pool_share : Option Pubkey
  pub policies : Bool
  pub attestation : Option Pubkey

abbrev pub if_passed : {A : Type 0} → Bool → Option A → Result (Option A)
if_passed false a = ok none
if_passed true a = do v ← load a; ok (some v)

abbrev pub profile_key : (derive : List Bytes → Pubkey) → EnergyProducer → Pubkey
profile_key derive p = derive (codes "profile" ∷ to_bytes p.authority ∷ [])

abbrev pub reputation_key : Runtime → Pubkey → Pubkey
reputation_key rt owner = pda rt (codes "reputation") (owner ∷ [])

abbrev attested : Ledger → Option Pubkey → Result (Option Attested)
attested l none = ok none
attested l (some key) = do
  a ← load (l.quorum.attestations key)
  ok (some (record { key = key; account = a }))

-- The accounts that the mint reads; the signer is the submitter.
unfoldable pub load_context : Runtime → Ledger → Pubkey → MintAccounts → Result MintContext
load_context rt l signer a = do
  token_mint ← load l.token_mint
  oracle_registry ← load l.oracle_registry
  policy_registry ← if_passed a.policies l.policy_registry
  oracle_quorum_config ← load l.quorum.config
  attestation ← attested l a.attestation
  ok (record {
    producer_key = a.producer;
    submitter = signer;
    producer_owner = a.producer_owner;
    token_mint = token_mint;
    mint_key = src_mint rt;
    mint_authority = mint_authority_pda rt;
    user_token_account = a.user_token_account;
    buyback_account = a.buyback_account;
    staking_account = a.staking_account;
    dao_account = a.dao_account;
    emergency_account = a.emergency_account;
    instructions = a.instructions;
    profile_program = a.profile_program;
    oracle_registry = oracle_registry;
    policy_registry = policy_registry;
    oracle_quorum_config = oracle_quorum_config;
    attestation = attestation;
  })

-- Those that it writes; `derive` gives the address of an owner's profile under the other program.
unfoldable pub load_state :
    Runtime → (derive : List Bytes → Pubkey) → Ledger → MintAccounts → Result MintState
load_state rt derive l a = do
  producer ← load (l.devices.producers a.producer)
  vault ← load l.vault
  profile ← load (l.devices.profiles (profile_key derive producer))
  reputation ← if_passed a.reputation (l.devices.reputations (reputation_key rt producer.authority))
  pool ← passed l.pools.pools a.pool
  pool_share ← passed l.pools.shares a.pool_share
  ok (record {
    producer = producer;
    vault = vault;
    profile = profile;
    reputation = reputation;
    pool = pool;
    pool_share = pool_share;
  })

-- The producer's owner is the same before and after, and with it the two addresses.
unfoldable pub store_state :
    Runtime → (derive : List Bytes → Pubkey) → Ledger → MintAccounts → MintState → Ledger
store_state rt derive l a s = record l {
  vault = some s.vault;
  devices = record l.devices {
    producers = store l.devices.producers a.producer s.producer;
    profiles = store l.devices.profiles (profile_key derive s.producer) s.profile;
    reputations =
        store_if l.devices.reputations (reputation_key rt s.producer.authority) s.reputation;
  };
  pools = record {
    pools = store_passed l.pools.pools a.pool s.pool;
    shares = store_passed l.pools.shares a.pool_share s.pool_share;
  };
}

unfoldable pub run_mint :
    Runtime
    → (derive : List Bytes → Pubkey) → Ledger
    → Pubkey
    → MintAccounts
    → OracleReport
    → Result (Ledger × Flow)
run_mint rt derive l signer a report = do
  context ← load_context rt l signer a
  state ← load_state rt derive l a
  (after, split) ← mint_energy rt context state report
  ok (store_state rt derive l a after, record { minted = amount_of split; burned = 0 })
