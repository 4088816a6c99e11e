-- ===== src/Oracle.antt =====
-- programs/enrg-mvp/src/state/registry/oracle.rs and instructions/oracle_registry.rs: the registry of
-- trusted oracles and its handlers.
pub mod Registry
mod Tests
use enrg.Prelude.{
  ℕ, Bool, not, Option, none, some, List, [], ltb, ◌==◌, length, contains, position, push,
  remove_at, Result, ok, err, framework, ErrorCode, require, ok_or, ◌>>=◌, ◌>>◌,
}
use enrg.Constants.{expected_deployer}
use enrg.Solana.{Pubkey, default_key}

pub record OracleRegistry : Type 0 where
  pub authority : Pubkey
  pub oracle_admin : Pubkey
  pub oracles : List Pubkey

abbrev pub max_oracles : ℕ
max_oracles = 100

-- `OracleRegistry::contains`
abbrev pub trusts : OracleRegistry → Pubkey → Bool
trusts registry oracle = contains oracle registry.oracles

unfoldable pub initialize_oracle_registry : Option OracleRegistry → Pubkey → Result OracleRegistry
initialize_oracle_registry (some _) authority = err (framework 0)
initialize_oracle_registry none authority = do
  require (authority == expected_deployer) ErrorCode.unauthorized_deployer
  ok (record { authority = authority; oracle_admin = authority; oracles = [] })

unfoldable pub set_oracle_admin : OracleRegistry → Pubkey → Pubkey → Result OracleRegistry
set_oracle_admin registry signer new_oracle_admin = do
  require (registry.authority == signer) ErrorCode.unauthorized
  require (not (new_oracle_admin == default_key)) ErrorCode.invalid_parameter
  ok (record registry { oracle_admin = new_oracle_admin })

unfoldable pub set_oracle_registry_authority :
    OracleRegistry → Pubkey → Pubkey → Result OracleRegistry
set_oracle_registry_authority registry signer new_authority = do
  require (registry.authority == signer) ErrorCode.not_oracle_authority
  require (not (new_authority == default_key)) ErrorCode.invalid_parameter
  ok (record registry { authority = new_authority })

unfoldable pub add_oracle : OracleRegistry → Pubkey → Pubkey → Result OracleRegistry
add_oracle registry signer oracle = do
  require (registry.oracle_admin == signer) ErrorCode.unauthorized
  require (not (contains oracle registry.oracles)) ErrorCode.already_exists
  require (ltb (length registry.oracles) max_oracles) ErrorCode.invalid_parameter
  ok (record registry { oracles = push registry.oracles oracle })

unfoldable pub remove_oracle : OracleRegistry → Pubkey → Pubkey → Result OracleRegistry
remove_oracle registry signer oracle = do
  require (registry.oracle_admin == signer) ErrorCode.unauthorized
  index ← ok_or (position oracle registry.oracles) ErrorCode.not_found
  ok (record registry { oracles = remove_at index registry.oracles })
