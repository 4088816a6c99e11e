-- ===== src/Oracle/Tests.antt =====
-- A registry with two oracles, of which one is removed.
use enrg.Prelude.{
  ℕ, ◌≡◌, refl, none, List, [], ◌∷◌, ok, arith, contains, distinct, position, remove_at,
}
use enrg.Constants.{expected_deployer}
use enrg.Oracle.{OracleRegistry, initialize_oracle_registry, add_oracle, remove_oracle}
use enrg.Oracle.Registry.{IsWellFormed}

abbrev holding : List ℕ → OracleRegistry
holding oracles = record {
  authority = expected_deployer;
  oracle_admin = expected_deployer;
  oracles = oracles;
}

begins : initialize_oracle_registry none expected_deployer ≡ ok (holding [])
unfolding initialize_oracle_registry
begins = refl

adds_first : add_oracle (holding []) expected_deployer 4 ≡ ok (holding (4 ∷ []))
unfolding add_oracle contains
adds_first = refl

adds_second : add_oracle (holding (4 ∷ [])) expected_deployer 5 ≡ ok (holding (4 ∷ 5 ∷ []))
unfolding add_oracle contains
adds_second = refl

removes_first : remove_oracle (holding (4 ∷ 5 ∷ [])) expected_deployer 4 ≡ ok (holding (5 ∷ []))
unfolding remove_oracle position remove_at
removes_first = refl

two-IsWellFormed : IsWellFormed (holding (4 ∷ 5 ∷ []))
unfolding distinct contains
two-IsWellFormed = (refl, omega arith)
