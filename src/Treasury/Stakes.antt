-- ===== src/Treasury/Stakes.antt =====
-- programs/enrg-mvp/src/instructions/staking.rs and state/stake.rs: the book of a staker.
use enrg.Prelude.{
  ℕ, ◌+◌, ◌≡◌, arith, ltb, leb, ◌==◌, if◌then◌else◌, checked_add, checked_sub, u64_max, Result, ok,
  ErrorCode, require, ok_or, ◌>>=◌, ◌>>◌,
}
use enrg.Prelude.Int.{ℤ, pos, eqb_ℤ}
use enrg.Solana.{Pubkey, Runtime}

pub record StakeInfo : Type 0 where
  pub owner : Pubkey
  pub staked_amount : ℕ
  pub pending_rewards : ℕ
  pub started_at : ℤ
  pub last_update : ℤ

unfoldable pub stake : Runtime → StakeInfo → Pubkey → ℕ → Result StakeInfo
stake rt s signer amount = do
  require (s.owner == signer) ErrorCode.unauthorized
  total ← ok_or (checked_add u64_max s.staked_amount amount) ErrorCode.arithmetic_overflow
  ok (record s {
    staked_amount = total;
    started_at = if eqb_ℤ s.started_at (pos 0) then rt.now else s.started_at;
    last_update = rt.now;
  })

unfoldable pub unstake : Runtime → StakeInfo → Pubkey → ℕ → Result StakeInfo
unstake rt s signer amount = do
  require (s.owner == signer) ErrorCode.unauthorized
  require (leb amount s.staked_amount) ErrorCode.insufficient_stake
  total ← ok_or (checked_sub s.staked_amount amount) ErrorCode.arithmetic_overflow
  ok (record s { staked_amount = total; last_update = rt.now })

unfoldable pub claim_rewards : Runtime → StakeInfo → Pubkey → Result StakeInfo
claim_rewards rt s signer = do
  require (s.owner == signer) ErrorCode.unauthorized
  require (ltb 0 s.pending_rewards) ErrorCode.nothing_to_claim
  ok (record s { pending_rewards = 0; last_update = rt.now })

-- The book before and after a deposit.
stake-values :
    (rt : Runtime) (s out : StakeInfo) (signer : Pubkey) (amount : ℕ)
    → stake rt s signer amount ≡ ok out
    → (s.owner ≡ signer)
      × (out.owner ≡ s.owner)
      × (out.staked_amount ≡ s.staked_amount + amount)
      × (out.pending_rewards ≡ s.pending_rewards)
unfolding stake
stake-values rt s out signer amount h = ground arith
