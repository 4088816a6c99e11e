-- ===== src/Program.antt =====
-- programs/enrg-mvp/src/lib.rs: the instructions of the program, by its phases, and their dispatch to
-- the handlers. Accounts has the accounts, Bootstrap, Minting, Payouts, DeviceCalls and Votes the phases.
pub mod Accounts
pub mod Bootstrap
pub mod Minting
pub mod Payouts
pub mod DeviceCalls
pub mod Votes
pub mod Runs
pub mod Members
pub mod Holder
pub mod Balance
pub mod Supply
pub mod Kept
pub mod Records
pub mod History
pub mod Replay
pub mod Authorities
mod Seats
pub mod Leaves
mod SetUps
pub mod Roles
pub mod LeftOut
pub mod Books
mod Registries
mod Guards
pub mod Valid
mod Tests
mod MintTests
use enrg.Prelude.{ℕ, List, Result, ok, some, ◌>>=◌}
use enrg.Solana.{Pubkey, Bytes, Runtime, TokenAccount}
use enrg.Messages.{OracleReport}
use enrg.Program.Accounts.{load, Ledger, Flow, no_flow}
use enrg.Program.Bootstrap.{SetupCall, OracleCall, PolicyCall, run_setup, run_oracles, run_policies}
use enrg.Program.Minting.{MintAccounts, run_mint}
use enrg.Program.Payouts.{
  PoolCall, StakeCall, VestingCall, EconomyCall, run_pools, run_stakes, run_vesting, run_economy,
}
use enrg.Program.DeviceCalls.{DeviceCall, ProfileCall, run_devices, run_profiles}
use enrg.Program.Votes.{
  GovernanceCall, QuorumCall, run_council, run_execution, run_commit, run_quorum,
}

-- The instructions by their phases, and those of programs/enrg-profile.
pub data Call : Type 0 where
  setup : SetupCall → Call
  oracles : OracleCall → Call
  policies : PolicyCall → Call
  mint_energy : MintAccounts → OracleReport → Call
  pools : PoolCall → Call
  stakes : StakeCall → Call
  vesting : VestingCall → Call
  economy : EconomyCall → Call
  devices : DeviceCall → Call
  council : GovernanceCall → Call
  governance_mint : ℕ → TokenAccount → Call
  commit_contribution : Pubkey → Pubkey → ℕ → Bytes → Bytes → Call
  quorum : QuorumCall → Call
  profiles : ProfileCall → Call

abbrev silent : Ledger → Result (Ledger × Flow)
silent l = ok (l, no_flow)

-- The dispatch: the ledger after the instruction, and what it minted and burned.
module _ (rt : Runtime) (derive : List Bytes → Pubkey) (l : Ledger) (signer : Pubkey) where
  unfoldable pub run : Call → Result (Ledger × Flow)
  run (setup call) = run_setup rt l signer call >>= silent
  run (oracles call) = do
    registry ← load l.oracle_registry
    updated ← run_oracles registry signer call
    silent (record l { oracle_registry = some updated })
  run (policies call) = do
    registry ← run_policies rt l.policy_registry signer call
    silent (record l { policy_registry = some registry })
  run (mint_energy accounts report) = run_mint rt derive l signer accounts report
  run (pools call) = run_pools rt l signer call
  run (stakes call) = do
    books ← run_stakes rt l.stakes signer call
    silent (record l { stakes = books })
  run (vesting call) = do
    v ← run_vesting rt l.vesting signer call
    silent (record l { vesting = some v })
  run (economy call) = run_economy rt l signer call
  run (devices call) = do
    d ← run_devices rt derive l.vault l.oracle_registry l.devices signer call
    silent (record l { devices = d })
  run (council call) = do
    c ← run_council rt l.council signer call
    silent (record l { council = c })
  run (governance_mint id destination) = run_execution rt l signer id destination
  run (commit_contribution device_id instructions round digest signature) = do
    m ← run_commit rt l.commitments device_id instructions round digest signature
    silent (record l { commitments = m })
  run (quorum call) = do
    q ← run_quorum rt l.oracle_registry l.council.governance l.token_mint l.quorum signer call
    silent (record l { quorum = q })
  run (profiles call) = do
    d ← run_profiles rt derive l.devices signer call
    silent (record l { devices = d })
