-- ===== src/Treasury/Setup.antt =====
-- programs/enrg-mvp/src/instructions/initialize.rs, initialize_token.rs, init_config.rs and
-- init_founder.rs, with state/config.rs: the vault, the token, the funds, the configuration and the
-- founder's premine.
use enrg.Prelude.{
  ℕ, ◌+◌, ◌≤◌, ◌≡◌, ◌≢◌, sym, ap, ◌∙◌, ◌⊎◌, inl, inr, arith, Bool, not, Option, leb, ◌==◌,
  if◌then◌else◌, checked_add, u64_max, Result, ok, ErrorCode, require, ok_or, ◌>>=◌, ◌>>◌,
  require_then, check_then, ok_or_then, ok-injective, ==→eq, leb→le,
}
use enrg.Constants.{expected_deployer, founder_wallet, max_supply_atomic, founder_allocation_atomic}
use enrg.Solana.{Pubkey, default_key, vacant, Runtime, TokenAccount, mint_to}
use enrg.Vault.{Vault, TokenMint}
use enrg.Treasury.Funds.{Fund, fund_pda}

abbrev pub src_decimals : ℕ
src_decimals = 9

abbrev pub emission_difficulty_k : ℕ
emission_difficulty_k = 10

-- The vault is all zero when `init_if_needed` has just made it.
unfoldable pub initialize_vault : Vault → Pubkey → Pubkey → TokenMint → Result Vault
initialize_vault vault authority mint token_mint = do
  require (mint == token_mint.mint) ErrorCode.invalid_parameter
  require (authority == expected_deployer) ErrorCode.unauthorized_deployer
  ok (
      if vault.deployer == default_key
      then record vault {
        deployer = authority;
        authority = authority;
        protocol_version = 1;
        total_supply = 0;
        max_supply = max_supply_atomic;
        emission_k = emission_difficulty_k;
        total_energy_wh = 0;
        total_producers = 0;
        total_proofs = 0;
      }
      else vault)

-- The addresses of the token: the mint and its authority are PDAs. The fields that the handler
-- does not write are zero in the new account.
unfoldable pub initialize_token : Option TokenMint → Pubkey → Pubkey → Pubkey → Result TokenMint
initialize_token existing authority mint mint_authority = do
  vacant existing
  require (authority == expected_deployer) ErrorCode.unauthorized_deployer
  ok (record {
    mint = mint;
    mint_authority = mint_authority;
    buyback_account = default_key;
    staking_account = default_key;
    dao_account = default_key;
    emergency_account = default_key;
    founder_account = default_key;
    founder_minted = 0;
    decimals = src_decimals;
  })

pub record InitializeFunds : Type 0 where
  pub vault : Vault
  pub token_mint : TokenMint
  pub mint : Pubkey
  pub buyback_account : TokenAccount
  pub staking_account : TokenAccount
  pub dao_account : TokenAccount
  pub emergency_account : TokenAccount
  pub authority : Pubkey

unfoldable pub initialize_funds : Runtime → InitializeFunds → Result TokenMint
initialize_funds rt c = do
  require (c.vault.authority == c.authority) ErrorCode.unauthorized
  require (c.mint == c.token_mint.mint) ErrorCode.invalid_parameter
  require (c.buyback_account.owner == fund_pda rt Fund.buyback) ErrorCode.invalid_parameter
  require (c.staking_account.owner == fund_pda rt Fund.staking) ErrorCode.invalid_parameter
  require (c.dao_account.owner == fund_pda rt Fund.dao) ErrorCode.invalid_parameter
  require (c.emergency_account.owner == fund_pda rt Fund.emergency) ErrorCode.invalid_parameter
  ok (record c.token_mint {
    buyback_account = c.buyback_account.key;
    staking_account = c.staking_account.key;
    dao_account = c.dao_account.key;
    emergency_account = c.emergency_account.key;
  })

unfoldable pub set_vault_authority : Vault → Pubkey → Pubkey → Result Vault
set_vault_authority vault signer new_authority = do
  require (vault.authority == signer) ErrorCode.unauthorized
  require (not (new_authority == default_key)) ErrorCode.invalid_parameter
  ok (record vault { authority = new_authority })

-- state/config.rs
pub record Config : Type 0 where
  pub authority : Pubkey
  pub oracle : Pubkey
  pub mint : Pubkey

unfoldable pub init_config : Option Config → Pubkey → Pubkey → Pubkey → Result Config
init_config existing authority oracle mint = do
  vacant existing
  require (authority == expected_deployer) ErrorCode.unauthorized_deployer
  require (not (oracle == default_key)) ErrorCode.invalid_parameter
  require (not (mint == default_key)) ErrorCode.invalid_parameter
  ok (record { authority = authority; oracle = oracle; mint = mint })

-- state/token_mint.rs
unfoldable pub founder_premine_not_minted : ℕ → Bool
founder_premine_not_minted founder_minted = founder_minted == 0

pub record AllocateFounder : Type 0 where
  pub vault : Vault
  pub token_mint : TokenMint
  pub mint : Pubkey
  pub founder_token_account : TokenAccount
  pub payer : Pubkey

-- The first call locks the founder's account.
unfoldable pub lock_founder : TokenMint → Pubkey → TokenMint
lock_founder t key =
    if t.founder_account == default_key then record t { founder_account = key } else t

unfoldable pub allocate_founder : Runtime → AllocateFounder → Result (Vault × TokenMint)
unfolding founder_premine_not_minted lock_founder
allocate_founder rt c =
    let locked = lock_founder c.token_mint c.founder_token_account.key in
    do
      require (c.mint == c.token_mint.mint) ErrorCode.invalid_parameter
      require (c.founder_token_account.owner == founder_wallet) ErrorCode.unauthorized
      require (c.payer == founder_wallet) ErrorCode.unauthorized
      require (founder_premine_not_minted c.token_mint.founder_minted)
          ErrorCode.founder_premine_already_minted
      require (locked.founder_account == c.founder_token_account.key) ErrorCode.invalid_parameter
      new_supply ←
          ok_or (checked_add u64_max c.vault.total_supply founder_allocation_atomic)
            ErrorCode.arithmetic_overflow
      require (leb new_supply c.vault.max_supply) ErrorCode.supply_limit_exceeded
      rt.invoke (mint_to c.founder_token_account.key founder_allocation_atomic)
      ok (record c.vault { total_supply = new_supply }, record locked { founder_minted = 1 })

-- What the premine does.
pub record IsPremine (c : AllocateFounder) (w : Vault) (t : TokenMint) : Type 0 where
  by_founder : c.payer ≡ founder_wallet
  to_founder : c.founder_token_account.owner ≡ founder_wallet
  pub supply : w.total_supply ≡ c.vault.total_supply + founder_allocation_atomic
  pub capped : w.total_supply ≤ c.vault.max_supply
  pub kept : w.max_supply ≡ c.vault.max_supply
  locked : t.founder_account ≡ c.founder_token_account.key
  used : t.founder_minted ≡ 1

pub allocate_founder-IsPremine :
    (rt : Runtime) (c : AllocateFounder) (w : Vault) (t : TokenMint)
    → allocate_founder rt c ≡ ok (w, t)
    → IsPremine c w t
unfolding allocate_founder
allocate_founder-IsPremine rt c w t h =
    let lock = lock_founder c.token_mint c.founder_token_account.key in
    let amount = founder_allocation_atomic in
    let (_, h₁) = require_then (c.mint == c.token_mint.mint) _ _ h in
    let (owned, h₂) = require_then (c.founder_token_account.owner == founder_wallet) _ _ h₁ in
    let (paid, h₃) = require_then (c.payer == founder_wallet) _ _ h₂ in
    let (_, h₄) = require_then (founder_premine_not_minted c.token_mint.founder_minted) _ _ h₃ in
    let (same, h₅) = require_then (lock.founder_account == c.founder_token_account.key) _ _ h₄ in
    let (total, e, h₆) = ok_or_then (checked_add u64_max c.vault.total_supply amount) _ _ h₅ in
    let (capped, h₇) = require_then (leb total c.vault.max_supply) _ _ h₆ in
    let (_, h₈) = check_then (rt.invoke (mint_to c.founder_token_account.key amount)) _ h₇ in
    let out = ok-injective _ (w, t) h₈ in
    let whole : total ≡ c.vault.total_supply + amount = ground arith in
    let low = leb→le total c.vault.max_supply capped in
    record {
      by_founder = ==→eq c.payer founder_wallet paid;
      to_founder = ==→eq c.founder_token_account.owner founder_wallet owned;
      supply = sym (ap (λ r. r.0.total_supply) out) ∙ whole;
      capped = omega (arith, ap (λ r. r.0.total_supply) out, low);
      kept = sym (ap (λ r. r.0.max_supply) out);
      locked =
          sym (ap (λ r. r.1.founder_account) out)
          ∙ ==→eq lock.founder_account c.founder_token_account.key same;
      used = sym (ap (λ r. r.1.founder_minted) out);
    }

premine_used :
    (rt : Runtime) (c : AllocateFounder) (z : Vault × TokenMint)
    → c.token_mint.founder_minted ≡ 1
    → allocate_founder rt c ≢ ok z
unfolding allocate_founder founder_premine_not_minted
premine_used rt c z used h =
    let (_, h₁) = require_then (c.mint == c.token_mint.mint) _ _ h in
    let (_, h₂) = require_then (c.founder_token_account.owner == founder_wallet) _ _ h₁ in
    let (_, h₃) = require_then (c.payer == founder_wallet) _ _ h₂ in
    let (fresh, _) = require_then (c.token_mint.founder_minted == 0) _ _ h₃ in absurd (ground arith)

initialize_funds-premine :
    (rt : Runtime) (c : InitializeFunds) (t : TokenMint)
    → initialize_funds rt c ≡ ok t
    → t.founder_minted ≡ c.token_mint.founder_minted
unfolding initialize_funds
initialize_funds-premine rt c t h = ground arith

premine_flag :
    (now t u : TokenMint)
    → t.founder_minted ≡ 1
    → (now ≡ t) ⊎ (now ≡ u)
    → u.founder_minted ≡ t.founder_minted
    → now.founder_minted ≡ 1
premine_flag now t u used (inl same) kept = ap (λ k. k.founder_minted) same ∙ used
premine_flag now t u used (inr same) kept = ap (λ k. k.founder_minted) same ∙ kept ∙ used

-- After a successful premine, none succeeds again on the token's record that it leaves, nor on
-- the one after a successful setting of the funds, whatever the vault, the accounts and the payer
-- are.
pub premine_once :
    (rt rt' rt'' : Runtime) (c again : AllocateFounder) (w : Vault) (t u : TokenMint)
    (funds : InitializeFunds) (z : Vault × TokenMint)
    → allocate_founder rt c ≡ ok (w, t)
    → funds.token_mint ≡ t
    → initialize_funds rt' funds ≡ ok u
    → (again.token_mint ≡ t) ⊎ (again.token_mint ≡ u)
    → allocate_founder rt'' again ≢ ok z
premine_once rt rt' rt'' c again w t u funds z first before set later =
    let used = (allocate_founder-IsPremine rt c w t first).used in
    let kept = initialize_funds-premine rt' funds u set in
    premine_used rt'' again z
      (premine_flag again.token_mint t u used later (kept ∙ ap (λ k. k.founder_minted) before))
