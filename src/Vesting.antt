-- ===== src/Vesting.antt =====
-- programs/enrg-mvp/src/state/vesting.rs and instructions/vesting.rs: the founder's allocation, locked
-- for a year and released over the next three.
pub mod Release
pub mod Claims
mod Tests
use enrg.Prelude.{
  ℕ, ◌+◌, ◌-◌, ◌*◌, ◌/◌, ◌%◌, Bool, Option, none, some, ltb, leb, ◌==◌, if◌then◌else◌, checked_sub,
  u64_max, Result, ok, err, ErrorCode, require, ok_or, ◌>>=◌, ◌>>◌,
}
use enrg.Prelude.Int.{ℤ, pos, leb_ℤ, ltb_ℤ, sub_i64, saturating_sub_i64, pos_part}
use enrg.Constants.{
  founder_allocation_atomic, founder_vesting_cliff, founder_vesting_release, founder_wallet,
}
use enrg.Solana.{Pubkey, Runtime, TokenAccount, token_transfer}

pub record FounderVesting : Type 0 where
  pub founder : Pubkey
  pub total_amount : ℕ
  pub start_time : ℤ
  pub cliff : ℤ
  pub release : ℤ
  pub withdrawn : ℕ
  pub last_claim : ℤ

-- `i64::min`
abbrev pub min_ℤ : ℤ → ℤ → ℤ
min_ℤ a b = if leb_ℤ a b then a else b

-- `elapsed_release as u128` is of a number that is not negative; the product of two 64-bit words
-- fits 128 bits; `as u64` keeps the low 64.
unfoldable pub released : ℕ → ℤ → ℤ → ℕ
released total_amount elapsed release =
    (total_amount * pos_part (min_ℤ elapsed release) / pos_part release) % (u64_max + 1)

-- What is vested so long after the start, where the release takes time.
unfoldable pub vested_since : ℕ → ℤ → ℤ → ℤ → Result ℕ
vested_since total_amount since_start cliff release =
    if ltb_ℤ since_start cliff
    then ok 0
    else do elapsed ← sub_i64 since_start cliff; ok (released total_amount elapsed release)

unfoldable pub vested_at : ℕ → ℤ → ℤ → ℤ → ℤ → Result ℕ
vested_at total_amount start_time cliff release now =
    if leb_ℤ release (pos 0)
    then ok 0
    else vested_since total_amount (saturating_sub_i64 now start_time) cliff release

-- The account is created if it is not there; the handler writes every field either way.
unfoldable pub initialize_founder_vesting :
    Runtime → Option FounderVesting → Pubkey → Result FounderVesting
initialize_founder_vesting rt existing signer = do
  require (signer == founder_wallet) ErrorCode.unauthorized
  ok (record {
    founder = founder_wallet;
    total_amount = founder_allocation_atomic;
    start_time = rt.now;
    cliff = founder_vesting_cliff;
    release = founder_vesting_release;
    withdrawn = 0;
    last_claim = rt.now;
  })

-- The rest of a claim, of what is vested by now.
unfoldable pub pay_claim :
    Runtime → FounderVesting → TokenAccount → Pubkey → ℕ → Result (FounderVesting × ℕ)
pay_claim rt v founder_ata destination vested = do
  require (leb v.withdrawn vested) ErrorCode.arithmetic_overflow
  claimable ← ok_or (checked_sub vested v.withdrawn) ErrorCode.arithmetic_overflow
  require (ltb 0 claimable) ErrorCode.nothing_to_claim
  rt.invoke (token_transfer founder_ata.key destination claimable)
  ok (record v { withdrawn = vested; last_claim = rt.now }, claimable)

-- The vesting after a claim, and the amount that was transferred.
unfoldable pub claim_vested :
    Runtime → FounderVesting → TokenAccount → Pubkey → Pubkey → Result (FounderVesting × ℕ)
claim_vested rt v founder_ata destination signer = do
  require (founder_ata.owner == founder_wallet) ErrorCode.unauthorized
  require (v.founder == signer) ErrorCode.unauthorized
  vested ← vested_at v.total_amount v.start_time v.cliff v.release rt.now
  pay_claim rt v founder_ata destination vested
