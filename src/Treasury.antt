-- ===== src/Treasury.antt =====
-- The vault, the funds, the burn, the deposits of stakers and the founder's premine:
-- programs/enrg-mvp/src/instructions/initialize.rs, initialize_token.rs, init_config.rs, funds.rs,
-- buyback.rs, staking.rs and init_founder.rs.
pub mod Funds
pub mod Setup
pub mod Stakes
pub mod Supply
mod Tests
