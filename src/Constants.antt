-- ===== src/Constants.antt =====
-- programs/enrg-mvp/src/constants.rs: the protocol's constants. An address of the source is a
-- number here, its 32 bytes read in little-endian order; the two that the handlers compare with
-- are written by name below.
use enrg.Prelude.{ℕ, ◌*◌, ◌^◌}
use enrg.Prelude.Int.{ℤ, pos}

abbrev pub max_clock_skew : ℤ
max_clock_skew = pos 300

abbrev pub src_basis : ℕ
src_basis = 10 ^ 9

abbrev pub buyback_percent : ℕ
buyback_percent = 20

abbrev pub staking_percent : ℕ
staking_percent = 40

abbrev pub dao_percent : ℕ
dao_percent = 30

abbrev pub max_supply_atomic : ℕ
max_supply_atomic = 1_000_000_000_000_000_000

abbrev pub initial_energy_per_src : ℕ
initial_energy_per_src = 1_000_000

abbrev pub default_pool_threshold : ℕ
default_pool_threshold = 1_000_000

abbrev pub founder_vesting_cliff : ℤ
founder_vesting_cliff = pos (365 * 24 * 60 * 60)

abbrev pub founder_vesting_release : ℤ
founder_vesting_release = pos (3 * 365 * 24 * 60 * 60)

abbrev pub founder_allocation_atomic : ℕ
founder_allocation_atomic = 200_000_000_000_000_000

abbrev pub max_devices_per_owner : ℕ
max_devices_per_owner = 100

abbrev pub timelock_delay : ℕ
timelock_delay = 7 * 24 * 60 * 60

abbrev pub governance_member_max : ℕ
governance_member_max = 5

abbrev pub governance_min_members : ℕ
governance_min_members = 3

abbrev pub proposal_amount_max_atomic : ℕ
proposal_amount_max_atomic = 1_000_000_000_000_000

abbrev pub proposal_title_max_len : ℕ
proposal_title_max_len = 64

abbrev pub basic_monthly_limit_wh : ℕ
basic_monthly_limit_wh = 100_000

abbrev pub verified_monthly_limit_wh : ℕ
verified_monthly_limit_wh = 10_000_000

abbrev pub tier_month_secs : ℤ
tier_month_secs = pos (30 * 24 * 60 * 60)

abbrev pub ers_max_score : ℕ
ers_max_score = 1_000

abbrev pub ers_premium_threshold : ℕ
ers_premium_threshold = 700

abbrev pub default_max_energy_bps : ℕ
default_max_energy_bps = 10_000

-- `Ed25519SigVerify111111111111111111111111111`
abbrev pub ed25519_program_id : ℕ
ed25519_program_id = 3458080809542128655803577489650607195817492115783931901444493825965315

-- `Sysvar1nstructions1111111111111111111111111`
abbrev pub instructions_sysvar_id : ℕ
instructions_sysvar_id = 225768050671220641349150970434278938867026951764864671205614941480710

-- `78FUdpHn7pWPjnDhA8RWCsXxZq6r4wVPtCcsEKBBvhUt`
abbrev pub enrg_profile_program_id : ℕ
enrg_profile_program_id =
    11347327473815296871494729951958079513449592618085982793120970971443201179995

-- `FnqKH4bjMRM6hzrw6tjcpfyszovbRsvyNjuNwALmcZNC`
abbrev pub founder_wallet : ℕ
founder_wallet = 74719974993528895035950880729077609094259468285492824083261236598134670541275

abbrev pub expected_deployer : ℕ
expected_deployer = founder_wallet

abbrev pub pool_fp_scale : ℕ
pool_fp_scale = 1_000_000_000_000_000_000
