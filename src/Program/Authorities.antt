-- ===== src/Program/Authorities.antt =====
-- The authorities that the program keeps, and how the handlers of the oracles and the policies hand
-- them over.
use mathlib.Core.Path.{subst}
use enrg.Prelude.{◌≡◌, refl, sym, arith, Option, none, some, ok}
use enrg.Constants.{expected_deployer}
use enrg.Solana.{Pubkey, Runtime}
use enrg.Vault.{Vault}
use enrg.Oracle.{
  OracleRegistry, add_oracle, remove_oracle, set_oracle_admin, set_oracle_registry_authority,
}
use enrg.Policy.{PolicyRegistry, initialize_policy_registry, update_policy, set_policy_authority}
use enrg.Governance.{GovernanceState}
use enrg.Quorum.{OracleQuorumConfig}
use enrg.Program.Accounts.{Ledger}
use enrg.Program.Bootstrap.{OracleCall, PolicyCall, run_oracles, run_policies}

-- The holder of a role, if its account is there.
abbrev pub held : {A : Type 0} → (A → Pubkey) → Option A → Option Pubkey
held role none = none
held role (some a) = some (role a)

-- How a role may go from one holder to another: it is kept, or the one in charge of it signs, or
-- its account is new and the one who may create it signs.
pub data Passes (creator master : Option Pubkey) (signer : Pubkey) (before after : Option Pubkey)
    : Type 0 where
  keeps : after ≡ before → Passes creator master signer before after
  hands_over : master ≡ some signer → Passes creator master signer before after
  creates : before ≡ none → creator ≡ some signer → Passes creator master signer before after

abbrev pub vault_authority : Ledger → Option Pubkey
vault_authority l = held (λ (v : Vault). v.authority) l.vault

abbrev pub policy_authority : Option PolicyRegistry → Option Pubkey
policy_authority = held (λ (p : PolicyRegistry). p.authority)

abbrev pub root : Option OracleRegistry → Option Pubkey
root = held (λ (r : OracleRegistry). r.authority)

abbrev pub oracle_admin : Option OracleRegistry → Option Pubkey
oracle_admin = held (λ (r : OracleRegistry). r.oracle_admin)

abbrev pub council_authority : Option GovernanceState → Option Pubkey
council_authority = held (λ (g : GovernanceState). g.authority)

abbrev pub quorum_authority : Option OracleQuorumConfig → Option Pubkey
quorum_authority = held (λ (c : OracleQuorumConfig). c.authority)

pub run_oracles-Passes :
    (r : OracleRegistry) (signer : Pubkey) (c : OracleCall) (out : OracleRegistry)
    → run_oracles r signer c ≡ ok out
    → Passes (some expected_deployer) (root (some r)) signer (root (some r)) (root (some out))
      × Passes
          (some expected_deployer)
          (root (some r))
          signer
          (oracle_admin (some r))
          (oracle_admin (some out))
unfolding run_oracles add_oracle remove_oracle set_oracle_admin set_oracle_registry_authority
run_oracles-Passes r signer (OracleCall.add_oracle k) out h =
    (keeps (ground arith), keeps (ground arith))
run_oracles-Passes r signer (OracleCall.remove_oracle k) out h =
    (keeps (ground arith), keeps (ground arith))
run_oracles-Passes r signer (OracleCall.set_oracle_admin k) out h =
    (hands_over (ground arith), hands_over (ground arith))
run_oracles-Passes r signer (OracleCall.set_oracle_registry_authority k) out h =
    (hands_over (ground arith), hands_over (ground arith))

pub run_policies-Passes :
    (rt : Runtime) (o : Option PolicyRegistry) (signer : Pubkey) (c : PolicyCall)
    (out : PolicyRegistry)
    → run_policies rt o signer c ≡ ok out
    → Passes
        (some expected_deployer)
        (policy_authority o)
        signer
        (policy_authority o)
        (policy_authority (some out))
unfolding run_policies initialize_policy_registry update_policy set_policy_authority
run_policies-Passes rt none signer (PolicyCall.initialize_policy_registry bump) out h =
    creates refl (ground arith)
run_policies-Passes rt (some p) signer (PolicyCall.initialize_policy_registry bump) out h =
    absurd (ground arith)
run_policies-Passes rt none signer (PolicyCall.update_policy update) out h = absurd (ground arith)
run_policies-Passes rt (some p) signer (PolicyCall.update_policy update) out h =
    keeps (ground arith)
run_policies-Passes rt none signer (PolicyCall.set_policy_authority k) out h = absurd (ground arith)
run_policies-Passes rt (some p) signer (PolicyCall.set_policy_authority k) out h =
    hands_over (ground arith)

-- A role of an account that was loaded.
pub loaded-Passes :
    {A : Type 0} (role : A → Pubkey) (creator after : Option Pubkey) (signer : Pubkey)
    (o : Option A) (a : A)
    → o ≡ some a
    → Passes creator (some (role a)) signer (some (role a)) after
    → Passes creator (held role o) signer (held role o) after
loaded-Passes role creator after signer o a e h =
    subst (λ x. Passes creator (held role x) signer (held role x) after) (sym e) h
