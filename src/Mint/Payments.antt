-- ===== src/Mint/Payments.antt =====
-- What `mint_energy` of programs/enrg-mvp/src/instructions/mint.rs writes: the device, the split of the
-- reward, the vault, the reputation and the pool.
use enrg.Prelude.{
  ℕ, Option, none, some, [], ◌∷◌, ◌==◌, contains, checked_add, checked_sub, checked_mul,
  checked_div, u64_max, u128_max, Result, ok, err, code, ErrorCode, require, ok_or, ◌>>=◌, ◌>>◌,
}
use enrg.Prelude.Int.{ℤ}
use enrg.Constants.{buyback_percent, staking_percent, dao_percent}
use enrg.Solana.{Runtime, mint_to}
use enrg.Messages.{OracleReport, to_bytes}
use enrg.Device.{EnergyProducer}
use enrg.Vault.{Vault}
use enrg.Reputation.{Reputation, update_reputation_after_mint}
use enrg.Pool.{pool_share_seed, Pool, PoolContribution}
use enrg.Mint.Accounts.{MintContext, Split}

-- `producer.nonce = …` to the monthly energy.
unfoldable pub credit_producer : EnergyProducer → OracleReport → Result EnergyProducer
credit_producer p report = do
  energy ← ok_or (checked_add u64_max p.energy_wh report.energy_wh) ErrorCode.arithmetic_overflow
  month ←
      ok_or (checked_add u64_max p.month_energy_wh report.energy_wh) ErrorCode.arithmetic_overflow
  ok (record p {
    nonce = report.nonce;
    timestamp = report.verified_at;
    energy_wh = energy;
    month_energy_wh = month;
  })

abbrev pub percent_of : ℕ → ℕ → Result ℕ
percent_of amount percent = do
  scaled ← ok_or (checked_mul u64_max amount percent) ErrorCode.arithmetic_overflow
  ok_or (checked_div scaled 100) ErrorCode.arithmetic_overflow

unfoldable pub split_reward : ℕ → Result Split
split_reward reward = do
  user ← percent_of reward 85
  fee ← ok_or (checked_sub reward user) ErrorCode.arithmetic_overflow
  buyback ← percent_of fee buyback_percent
  staking ← percent_of fee staking_percent
  dao ← percent_of fee dao_percent
  rest ← ok_or (checked_sub fee buyback) ErrorCode.arithmetic_overflow
  rest' ← ok_or (checked_sub rest staking) ErrorCode.arithmetic_overflow
  emergency ← ok_or (checked_sub rest' dao) ErrorCode.arithmetic_overflow
  ok (record {
    user = user;
    buyback = buyback;
    staking = staking;
    dao = dao;
    emergency = emergency;
  })

-- The five calls of the token program.
unfoldable pub pay_out : Runtime → MintContext → Split → Result (Unit {0})
pay_out rt c s = do
  rt.invoke (mint_to c.user_token_account.key s.user)
  rt.invoke (mint_to c.buyback_account s.buyback)
  rt.invoke (mint_to c.staking_account s.staking)
  rt.invoke (mint_to c.dao_account s.dao)
  rt.invoke (mint_to c.emergency_account s.emergency)

unfoldable pub credit_vault : Vault → ℕ → ℕ → Result Vault
credit_vault v new_supply energy_wh = do
  energy ← ok_or (checked_add u128_max v.total_energy_wh energy_wh) ErrorCode.arithmetic_overflow
  proofs ← ok_or (checked_add u64_max v.total_proofs 1) ErrorCode.arithmetic_overflow
  ok (record v { total_supply = new_supply; total_energy_wh = energy; total_proofs = proofs })

unfoldable pub credit_reputation : Option Reputation → ℕ → ℤ → Result (Option Reputation)
credit_reputation none energy_wh now = ok none
credit_reputation (some r) energy_wh now = do
  updated ← update_reputation_after_mint r energy_wh now
  ok (some updated)

unfoldable pub credit_pool :
    Runtime
    → MintContext
    → Option Pool
    → Option PoolContribution
    → ℕ
    → Result (Option Pool × Option PoolContribution)
credit_pool rt c none none energy_wh = ok (none, none)
credit_pool rt c none (some share) energy_wh = err (code ErrorCode.invalid_parameter)
credit_pool rt c (some pool) none energy_wh = err (code ErrorCode.invalid_parameter)
credit_pool rt c (some pool) (some share) energy_wh = do
  require (share.pool == pool.key) ErrorCode.invalid_parameter
  require (share.producer == c.producer_key) ErrorCode.invalid_parameter
  require (contains c.producer_key pool.producers) ErrorCode.not_in_pool
  require
      (share.key
        == rt.find_program_address
            (pool_share_seed ∷ to_bytes pool.key ∷ to_bytes c.producer_key ∷ []))
      ErrorCode.invalid_parameter
  total ← ok_or (checked_add u128_max pool.total_energy energy_wh) ErrorCode.arithmetic_overflow
  own ← ok_or (checked_add u128_max share.energy_wh energy_wh) ErrorCode.arithmetic_overflow
  ok (
    some (record pool { total_energy = total }),
    some (record share { energy_wh = own; updated_at = rt.now }),
  )
