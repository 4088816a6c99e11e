-- ===== src/Treasury/Tests.antt =====
-- Runs of the handlers around the vault, and the theorems at them.
use enrg.Prelude.{◌≡◌, ◌≢◌, refl, inl, ok}
use enrg.Prelude.Int.{pos}
use enrg.Constants.{founder_wallet, founder_allocation_atomic}
use enrg.Solana.{TokenAccount, token_transfer}
use enrg.Samples.{a_runtime, a_vault, a_token_mint}
use enrg.Vault.{Vault}
use enrg.Treasury.Funds.{
  fund_pda, WithdrawFund, withdraw_fund, BuybackAndBurn, buyback_and_burn, IsWithdrawal,
  withdraw_fund-IsWithdrawal,
}
use enrg.Treasury.Setup.{
  InitializeFunds, AllocateFounder, initialize_funds, allocate_founder, premine_once,
}
use enrg.Treasury.Stakes.{StakeInfo, stake}

abbrev fund_account : TokenAccount
fund_account = record { key = 23; mint = 20; owner = 7; amount = 900 }

abbrev a_destination : TokenAccount
a_destination = record { key = 33; mint = 20; owner = 1; amount = 0 }

abbrev a_withdrawal : WithdrawFund
a_withdrawal = record {
  vault = a_vault;
  token_mint = a_token_mint;
  authority = 1;
  fund_account = fund_account;
  fund_authority = 7;
  destination = a_destination;
}

withdraws : withdraw_fund a_runtime a_withdrawal 2 500 ≡ ok (token_transfer 23 33 500)
unfolding withdraw_fund
withdraws = refl

withdraw_fund-IsWithdrawal_example :
    IsWithdrawal a_runtime a_withdrawal 2 500
    × (token_transfer 23 33 500 ≡ token_transfer fund_account.key a_destination.key 500)
withdraw_fund-IsWithdrawal_example =
    withdraw_fund-IsWithdrawal a_runtime a_withdrawal 2 500 (token_transfer 23 33 500) withdraws

abbrev a_funding : InitializeFunds
a_funding = record {
  vault = a_vault;
  token_mint = record a_token_mint { founder_minted = 1; founder_account = 25 };
  mint = 20;
  buyback_account = record fund_account { key = 21 };
  staking_account = record fund_account { key = 22 };
  dao_account = fund_account;
  emergency_account = record fund_account { key = 24 };
  authority = 1;
}

funds : initialize_funds a_runtime a_funding ≡ ok a_funding.token_mint
unfolding initialize_funds fund_pda
funds = refl

abbrev founder_tokens : TokenAccount
founder_tokens = record { key = 25; mint = 20; owner = founder_wallet; amount = 0 }

abbrev a_premine : AllocateFounder
a_premine = record {
  vault = a_vault;
  token_mint = a_token_mint;
  mint = 20;
  founder_token_account = founder_tokens;
  payer = founder_wallet;
}

abbrev premined : Vault
premined = record a_vault { total_supply = founder_allocation_atomic }

premines : allocate_founder a_runtime a_premine ≡ ok (premined, a_funding.token_mint)
unfolding allocate_founder
premines = refl

premine_once_example :
    allocate_founder a_runtime
      (record a_premine { token_mint = a_funding.token_mint; vault = premined })
    ≢ ok (premined, a_funding.token_mint)
premine_once_example =
    premine_once a_runtime a_runtime a_runtime a_premine
      (record a_premine { token_mint = a_funding.token_mint; vault = premined }) premined
      a_funding.token_mint a_funding.token_mint a_funding (premined, a_funding.token_mint) premines
      refl funds (inl refl)

abbrev a_burn : BuybackAndBurn
a_burn = record {
  vault = premined;
  authority = 1;
  mint = 20;
  token_mint = a_token_mint;
  buyback_account = record fund_account { key = 21 };
  buyback_authority = 7;
}

abbrev burnt : Vault
burnt = record premined { total_supply = 199_999_999_999_999_500 }

burns : buyback_and_burn a_runtime a_burn 500 ≡ ok burnt
unfolding buyback_and_burn
burns = refl

abbrev a_book : StakeInfo
a_book = record {
  owner = 11;
  staked_amount = 40;
  pending_rewards = 0;
  started_at = pos 0;
  last_update = pos 0;
}

abbrev raised_book : StakeInfo
raised_book = record a_book {
  staked_amount = 100;
  started_at = pos 1_000_000;
  last_update = pos 1_000_000;
}

stakes : stake a_runtime a_book 11 60 ≡ ok raised_book
unfolding stake
stakes = refl
