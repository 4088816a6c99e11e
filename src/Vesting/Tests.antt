-- ===== src/Vesting/Tests.antt =====
-- The founder's allocation at the cliff, after a year of release and at the end.
use enrg.Prelude.{◌≤◌, ◌≡◌, refl, sum, [], ◌∷◌, ok, arith}
use enrg.Prelude.Int.{pos, ◌-ℤ◌}
use enrg.Constants.{founder_wallet}
use enrg.Solana.{TokenAccount}
use enrg.Samples.{a_runtime}
use enrg.Vesting.{FounderVesting, released, vested_since, vested_at, pay_claim, claim_vested}
use enrg.Vesting.Claims.{none_yet, then_claim, Claims-sum}

at_the_cliff : vested_at 1_000 (pos 0) (pos 100) (pos 300) (pos 100) ≡ ok 0
unfolding vested_at vested_since released ◌-ℤ◌
at_the_cliff = refl

after_a_third : vested_at 1_000 (pos 0) (pos 100) (pos 300) (pos 200) ≡ ok 333
unfolding vested_at vested_since released ◌-ℤ◌
after_a_third = refl

at_the_end : vested_at 1_000 (pos 0) (pos 100) (pos 300) (pos 500) ≡ ok 1_000
unfolding vested_at vested_since released ◌-ℤ◌
at_the_end = refl

abbrev a_vesting : FounderVesting
a_vesting = record {
  founder = founder_wallet;
  total_amount = 1_000;
  start_time = pos 999_800;
  cliff = pos 100;
  release = pos 300;
  withdrawn = 0;
  last_claim = pos 0;
}

abbrev claimed_once : FounderVesting
claimed_once = record a_vesting { withdrawn = 333; last_claim = pos 1_000_000 }

abbrev an_account : TokenAccount
an_account = record { key = 30; mint = 20; owner = founder_wallet; amount = 1_000 }

claims : claim_vested a_runtime a_vesting an_account 40 founder_wallet ≡ ok (claimed_once, 333)
unfolding claim_vested pay_claim vested_at vested_since released ◌-ℤ◌
claims = refl

Claims-sum_example : (sum (333 ∷ []) ≡ 333) × (sum (333 ∷ []) ≤ 1_000)
Claims-sum_example =
    Claims-sum a_vesting claimed_once (333 ∷ []) refl (omega arith)
      (then_claim a_runtime an_account 40 founder_wallet none_yet claims)
