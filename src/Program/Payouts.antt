-- ===== src/Program/Payouts.antt =====
-- Phases 5 to 8 of programs/enrg-mvp/src/lib.rs: the pools, the stakes, the founder's vesting, and
-- the economics of the token.
use enrg.Prelude.{ℕ, Option, some, List, [], ◌∷◌, unwrap_or, sum, Result, ok, ◌>>=◌, ◌>>◌}
use enrg.Prelude.Int.{pos}
use enrg.Constants.{founder_allocation_atomic}
use enrg.Solana.{Pubkey, default_key, codes, derived, Runtime, TokenAccount}
use enrg.Device.{EnergyProducer}
use enrg.Pool.{PoolContribution, pool_share_seed}
use enrg.Pool.Handlers
use enrg.Pool.Distribute
use enrg.Pool.Distribute.{RemainingAccount}
use enrg.Treasury.Stakes
use enrg.Treasury.Stakes.{StakeInfo}
use enrg.Treasury.Setup
use enrg.Treasury.Funds
use enrg.Vesting
use enrg.Vesting.{FounderVesting}
use enrg.Program.Accounts.{Accounts, load, store, pda, Pools, Ledger, Flow, no_flow}
use enrg.Program.Bootstrap.{src_mint}

-- Phase 5. The caller passes the addresses of a pool and of a producer.
pub data PoolCall : Type 0 where
  create_pool : ℕ → PoolCall
  join_pool : Pubkey → Pubkey → PoolCall
  distribute_pool : Pubkey → List RemainingAccount → PoolCall

abbrev pub pool_key : Runtime → Pubkey → Pubkey
pool_key rt authority = pda rt (codes "pool") (authority ∷ [])

abbrev pub producer_key : Runtime → Pubkey → Pubkey
producer_key rt device_id = pda rt (codes "producer") (device_id ∷ [])

abbrev pub share_key : Runtime → Pubkey → Pubkey → Pubkey
share_key rt pool producer = pda rt pool_share_seed (pool ∷ producer ∷ [])

abbrev pub new_share : Pubkey → PoolContribution
new_share key = record {
  key = key;
  pool = default_key;
  producer = default_key;
  energy_wh = 0;
  updated_at = pos 0;
}

unfoldable pub run_join : Runtime → Accounts EnergyProducer → Pools → Pubkey → Pubkey → Result Pools
run_join rt producers p pool_at producer_at =
    let at = share_key rt pool_at producer_at in
    do
      pool ← load (p.pools pool_at)
      derived pool_at (pool_key rt pool.authority)
      producer ← load (producers producer_at)
      derived producer_at (producer_key rt producer.device_id)
      (joined, share) ←
          Handlers.join_pool rt pool producer_at (unwrap_or (p.shares at) (new_share at))
      ok (record { pools = store p.pools pool_at joined; shares = store p.shares at share })

-- The remaining accounts of a distribution stand for what the caller passes; the handler tests
-- that they are the program's and decodes them.
unfoldable pub run_distribution :
    Runtime → Ledger → Pubkey → Pubkey → List RemainingAccount → Result (Ledger × Flow)
run_distribution rt l signer pool_at remaining = do
  pool ← load (l.pools.pools pool_at)
  derived pool_at (pool_key rt pool.authority)
  vault ← load l.vault
  token_mint ← load l.token_mint
  out ← Distribute.distribute_pool rt (record {
    pool = pool;
    vault = vault;
    token_mint = token_mint;
    mint = src_mint rt;
    authority = signer;
    remaining_accounts = remaining;
  })
  ok (
    record l {
      vault = some out.vault;
      pools = record l.pools { pools = store l.pools.pools pool_at out.pool };
    },
    record { minted = sum out.rewards; burned = 0 },
  )

abbrev quiet : Ledger → Result (Ledger × Flow)
quiet l = ok (l, no_flow)

unfoldable pub run_pools : Runtime → Ledger → Pubkey → PoolCall → Result (Ledger × Flow)
run_pools rt l signer (create_pool threshold) =
    let at = pool_key rt signer in
    do
      pool ← Handlers.create_pool rt (l.pools.pools at) at signer threshold
      quiet (record l { pools = record l.pools { pools = store l.pools.pools at pool } })
run_pools rt l signer (join_pool pool_at producer_at) = do
  p ← run_join rt l.devices.producers l.pools pool_at producer_at
  quiet (record l { pools = p })
run_pools rt l signer (distribute_pool pool_at remaining) =
    run_distribution rt l signer pool_at remaining

-- Phase 6. The address of the book is the caller's choice.
pub data StakeCall : Type 0 where
  stake unstake : Pubkey → ℕ → StakeCall
  claim_rewards : Pubkey → StakeCall

abbrev pub book : StakeCall → Pubkey
book (stake at _) = at
book (unstake at _) = at
book (claim_rewards at) = at

abbrev pub staked : Runtime → StakeInfo → Pubkey → StakeCall → Result StakeInfo
staked rt s signer (stake _ amount) = Stakes.stake rt s signer amount
staked rt s signer (unstake _ amount) = Stakes.unstake rt s signer amount
staked rt s signer (claim_rewards _) = Stakes.claim_rewards rt s signer

unfoldable pub run_stakes :
    Runtime → Accounts StakeInfo → Pubkey → StakeCall → Result (Accounts StakeInfo)
run_stakes rt stakes signer call = do
  s ← load (stakes (book call))
  updated ← staked rt s signer call
  ok (store stakes (book call) updated)

-- Phase 7.
pub data VestingCall : Type 0 where
  initialize_founder_vesting : VestingCall
  claim_vested : TokenAccount → Pubkey → VestingCall

unfoldable pub run_vesting :
    Runtime → Option FounderVesting → Pubkey → VestingCall → Result FounderVesting
run_vesting rt v signer initialize_founder_vesting = Vesting.initialize_founder_vesting rt v signer
run_vesting rt v signer (claim_vested founder_ata destination) = do
  vesting ← load v
  (updated, amount) ← Vesting.claim_vested rt vesting founder_ata destination signer
  ok updated

-- Phase 8.
pub data EconomyCall : Type 0 where
  buyback_and_burn : TokenAccount → Pubkey → ℕ → EconomyCall
  allocate_founder : TokenAccount → EconomyCall
  withdraw_fund : TokenAccount → Pubkey → TokenAccount → ℕ → ℕ → EconomyCall

unfoldable pub run_economy : Runtime → Ledger → Pubkey → EconomyCall → Result (Ledger × Flow)
run_economy rt l signer (buyback_and_burn account fund_authority amount) = do
  vault ← load l.vault
  token_mint ← load l.token_mint
  burnt ←
      Funds.buyback_and_burn rt
        (record {
          vault = vault;
          authority = signer;
          mint = src_mint rt;
          token_mint = token_mint;
          buyback_account = account;
          buyback_authority = fund_authority;
        })
        amount
  ok (record l { vault = some burnt }, record { minted = 0; burned = amount })
run_economy rt l signer (allocate_founder account) = do
  vault ← load l.vault
  token_mint ← load l.token_mint
  (supplied, locked) ← Setup.allocate_founder rt (record {
    vault = vault;
    token_mint = token_mint;
    mint = src_mint rt;
    founder_token_account = account;
    payer = signer;
  })
  ok (
    record l { vault = some supplied; token_mint = some locked },
    record { minted = founder_allocation_atomic; burned = 0 },
  )
run_economy rt l signer (withdraw_fund account fund_authority destination fund_tag amount) = do
  vault ← load l.vault
  token_mint ← load l.token_mint
  transfer ←
      Funds.withdraw_fund rt
        (record {
          vault = vault;
          token_mint = token_mint;
          authority = signer;
          fund_account = account;
          fund_authority = fund_authority;
          destination = destination;
        })
        fund_tag amount
  quiet l
