-- ===== src/Treasury/Funds.antt =====
-- programs/enrg-mvp/src/instructions/funds.rs and buyback.rs: the withdrawal from a fund and the
-- burn.
use enrg.Prelude.{
  ℕ, ◌≤◌, ◌<◌, ◌≡◌, sym, if◌then◌else◌, Option, none, some, [], ◌∷◌, ltb, leb, ◌==◌, ltb→lt, leb→le,
  ==→eq, lt→ltb, le→leb, eq→==, ◌+◌, ◌∙◌, true, arith, checked_sub, Result, ok, ErrorCode, require,
  ok_or, ◌>>=◌, ◌>>◌, require_then, check_then, ok_or_then, ok-injective,
}
use enrg.Solana.{Pubkey, Bytes, codes, Runtime, TokenAccount, Cpi, token_transfer, burn, derived}
use enrg.Vault.{Vault, TokenMint}

-- The four funds, by their tag.
pub data Fund : Type 0 where
  buyback staking dao emergency : Fund

unfoldable pub fund_of : ℕ → Option Fund
fund_of fund_tag =
    if fund_tag == 0
    then some Fund.buyback
    else if fund_tag == 1
    then some Fund.staking
    else if fund_tag == 2
    then some Fund.dao
    else if fund_tag == 3
    then some Fund.emergency
    else none

unfoldable pub fund_seed : Fund → Bytes
fund_seed Fund.buyback = codes "fund-buyback"
fund_seed Fund.staking = codes "fund-staking"
fund_seed Fund.dao = codes "fund-dao"
fund_seed Fund.emergency = codes "fund-emergency"

unfoldable pub fund_account_of : TokenMint → Fund → Pubkey
fund_account_of t Fund.buyback = t.buyback_account
fund_account_of t Fund.staking = t.staking_account
fund_account_of t Fund.dao = t.dao_account
fund_account_of t Fund.emergency = t.emergency_account

unfoldable pub fund_pda : Runtime → Fund → Pubkey
unfolding fund_seed
fund_pda rt fund = rt.find_program_address (fund_seed fund ∷ [])

pub record WithdrawFund : Type 0 where
  pub vault : Vault
  pub token_mint : TokenMint
  pub authority : Pubkey
  pub fund_account : TokenAccount
  pub fund_authority : Pubkey
  pub destination : TokenAccount

-- The handler has no account of the program to write: its effect is the transfer, which it returns.
-- The constraint on the vault and the first `require!` are the same test.
unfoldable pub withdraw_fund : Runtime → WithdrawFund → ℕ → ℕ → Result Cpi
unfolding fund_of fund_account_of fund_pda
withdraw_fund rt c fund_tag amount =
    let transfer = token_transfer c.fund_account.key c.destination.key amount in
    do
      require (c.vault.authority == c.authority) ErrorCode.unauthorized
      require (ltb 0 amount) ErrorCode.zero_amount_mint
      fund ← ok_or (fund_of fund_tag) ErrorCode.invalid_parameter
      require (c.fund_account.key == fund_account_of c.token_mint fund) ErrorCode.invalid_parameter
      require (c.fund_authority == fund_pda rt fund) ErrorCode.invalid_parameter
      require (c.fund_account.owner == fund_pda rt fund) ErrorCode.unauthorized
      require (c.destination.mint == c.fund_account.mint) ErrorCode.invalid_parameter
      require (leb amount c.fund_account.amount) ErrorCode.insufficient_stake
      rt.invoke transfer
      ok transfer

pub record BuybackAndBurn : Type 0 where
  pub vault : Vault
  pub authority : Pubkey
  pub mint : Pubkey
  pub token_mint : TokenMint
  pub buyback_account : TokenAccount
  pub buyback_authority : Pubkey

-- The body, without its second test of the authority, which the constraint on the vault made.
unfoldable pub burn_tokens : Runtime → BuybackAndBurn → ℕ → Result Vault
burn_tokens rt c amount = do
  require (ltb 0 amount) ErrorCode.zero_amount_mint
  require (leb amount c.buyback_account.amount) ErrorCode.insufficient_stake
  rt.invoke (burn c.buyback_account.key amount)
  total ← ok_or (checked_sub c.vault.total_supply amount) ErrorCode.arithmetic_overflow
  ok (record c.vault { total_supply = total })

-- Anchor checks the constraints first, in the order of the fields.
unfoldable pub buyback_and_burn : Runtime → BuybackAndBurn → ℕ → Result Vault
unfolding fund_pda burn_tokens
buyback_and_burn rt c amount = do
  require (c.vault.authority == c.authority) ErrorCode.unauthorized
  require (c.mint == c.token_mint.mint) ErrorCode.invalid_parameter
  require (c.buyback_account.key == c.token_mint.buyback_account) ErrorCode.invalid_parameter
  require (c.buyback_account.owner == c.buyback_authority) ErrorCode.unauthorized
  derived c.buyback_authority (fund_pda rt Fund.buyback)
  burn_tokens rt c amount

derived-ok : (key address : Pubkey) → derived key address ≡ ok tt → key ≡ address
derived-ok key address h = ground arith

-- What a withdrawal passed: the tag names a fund, and the account is the one of that fund.
pub record IsWithdrawal (rt : Runtime) (c : WithdrawFund) (fund_tag amount : ℕ) : Type 0 where
  fund : Fund
  tagged : fund_of fund_tag ≡ some fund
  signed : c.vault.authority ≡ c.authority
  positive : 0 < amount
  account : c.fund_account.key ≡ fund_account_of c.token_mint fund
  owner : c.fund_account.owner ≡ fund_pda rt fund
  same_mint : c.destination.mint ≡ c.fund_account.mint
  covered : amount ≤ c.fund_account.amount

-- A withdrawal succeeds only when it is signed by the vault's authority, its tag names one of the
-- four funds, the source is the account that the token's record names for that fund and belongs
-- to the fund's own address, the destination is of the same mint, and the amount is positive and
-- covered by the balance; it is then the one transfer of that amount between the two accounts.
pub withdraw_fund-IsWithdrawal :
    (rt : Runtime) (c : WithdrawFund) (fund_tag amount : ℕ) (out : Cpi)
    → withdraw_fund rt c fund_tag amount ≡ ok out
    → IsWithdrawal rt c fund_tag amount
      × (out ≡ token_transfer c.fund_account.key c.destination.key amount)
unfolding withdraw_fund
withdraw_fund-IsWithdrawal rt c fund_tag amount out h =
    let transfer = token_transfer c.fund_account.key c.destination.key amount in
    let (signed, h₁) = require_then (c.vault.authority == c.authority) _ _ h in
    let (some_amount, h₂) = require_then (ltb 0 amount) _ _ h₁ in
    let (f, tagged, h₃) = ok_or_then (fund_of fund_tag) _ _ h₂ in
    let expected = fund_account_of c.token_mint f in
    let (account, h₄) = require_then (c.fund_account.key == expected) _ _ h₃ in
    let (_, h₅) = require_then (c.fund_authority == fund_pda rt f) _ _ h₄ in
    let (owner, h₆) = require_then (c.fund_account.owner == fund_pda rt f) _ _ h₅ in
    let (token, h₇) = require_then (c.destination.mint == c.fund_account.mint) _ _ h₆ in
    let (covered, h₈) = require_then (leb amount c.fund_account.amount) _ _ h₇ in
    let (_, h₉) = check_then (rt.invoke transfer) _ h₈ in
    (
      record {
        fund = f;
        tagged = tagged;
        signed = ==→eq c.vault.authority c.authority signed;
        positive = ltb→lt 0 amount some_amount;
        account = ==→eq c.fund_account.key expected account;
        owner = ==→eq c.fund_account.owner (fund_pda rt f) owner;
        same_mint = ==→eq c.destination.mint c.fund_account.mint token;
        covered = leb→le amount c.fund_account.amount covered;
      },
      sym (ok-injective transfer out h₉),
    )

-- A withdrawal that meets these conditions, with the fund's address as the authority of the
-- transfer, succeeds when the transfer does.
pub withdraw_fund_accepts :
    (rt : Runtime) (c : WithdrawFund) (fund_tag amount : ℕ)
    → IsWithdrawal rt c fund_tag amount
    → c.fund_authority ≡ c.fund_account.owner
    → rt.invoke (token_transfer c.fund_account.key c.destination.key amount) ≡ ok tt
    → withdraw_fund rt c fund_tag amount
      ≡ ok (token_transfer c.fund_account.key c.destination.key amount)
unfolding withdraw_fund
withdraw_fund_accepts rt c fund_tag amount w signs paid =
    let a : (c.vault.authority == c.authority) ≡ true = eq→== _ _ w.signed in
    let b : ltb 0 amount ≡ true = lt→ltb _ _ w.positive in
    let d = eq→== _ _ w.account in
    let e = eq→== _ _ (signs ∙ w.owner) in
    let f = eq→== _ _ w.owner in
    let g = eq→== _ _ w.same_mint in
    let k = le→leb _ _ w.covered in simp (a, b, w.tagged, d, e, f, g, k, paid)

burn_rest :
    (rt : Runtime) (c : BuybackAndBurn) (amount : ℕ) (w : Vault)
    → burn_tokens rt c amount ≡ ok w
    → (0 < amount)
      × (amount ≤ c.buyback_account.amount)
      × (w.total_supply + amount ≡ c.vault.total_supply)
      × (w.max_supply ≡ c.vault.max_supply)
unfolding burn_tokens
burn_rest rt c amount w h = ground arith

pub buyback_and_burn-values :
    (rt : Runtime) (c : BuybackAndBurn) (amount : ℕ) (w : Vault)
    → buyback_and_burn rt c amount ≡ ok w
    → (c.vault.authority ≡ c.authority)
      × (c.buyback_account.owner ≡ fund_pda rt Fund.buyback)
      × (0 < amount)
      × (amount ≤ c.buyback_account.amount)
      × (w.total_supply + amount ≡ c.vault.total_supply)
      × (w.max_supply ≡ c.vault.max_supply)
unfolding buyback_and_burn
buyback_and_burn-values rt c amount w h =
    let pda = fund_pda rt Fund.buyback in
    let (signed, h₁) = require_then (c.vault.authority == c.authority) _ _ h in
    let (_, h₂) = require_then (c.mint == c.token_mint.mint) _ _ h₁ in
    let (_, h₃) = require_then (c.buyback_account.key == c.token_mint.buyback_account) _ _ h₂ in
    let (owned, h₄) = require_then (c.buyback_account.owner == c.buyback_authority) _ _ h₃ in
    let (at, h₅) = check_then (derived c.buyback_authority pda) _ h₄ in
    let (some_amount, covered, total, kept) = burn_rest rt c amount w h₅ in
    (
      ==→eq c.vault.authority c.authority signed,
      ==→eq c.buyback_account.owner c.buyback_authority owned
          ∙ derived-ok c.buyback_authority pda at,
      some_amount,
      covered,
      total,
      kept,
    )
