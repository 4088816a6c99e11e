-- ===== src/Lib.antt =====
-- A verification library of the on-chain programs of ENRG: programs/enrg-mvp, which turns signed
-- reports of produced energy into tokens, and programs/enrg-profile, which keeps the rated power and
-- the recent production of a device.
--
-- The parts and their files. Handlers keep the name of the Rust function.
--   Prelude: shared names, Boolean tests, lists, Rust's checked words, i64, and Anchor's Result.
--   Constants: programs/enrg-mvp/src/constants.rs. Samples: accounts for the examples.
--   Solana: what the programs use of Solana, Anchor and the token program. None of that is in the
--   repository; a record of functions, Runtime, is an argument of the handlers.
--   Math: math.rs. Exp and Logarithm are about its loops, Monotone and Reward about the emission.
--   Messages: the byte strings that devices and oracles sign (security/lifecycle.rs, state/oracle.rs,
--   state/oracle_attestation.rs). Ed25519: security/ed25519.rs and security/mod.rs.
--   Device: state/producer.rs, state/owner_devices.rs, instructions/device_lifecycle.rs and tier.rs.
--   Lifecycle and Profile have the handlers; Calls joins them in one type of calls; Transitions and Fleet reason
--   about them.
--   Validation: security/validation.rs. Policy: state/policy.rs and instructions/policy_engine.rs.
--   Oracle: state/registry/oracle.rs and instructions/oracle_registry.rs. Quorum:
--   state/oracle_attestation.rs and instructions/oracle_quorum.rs.
--   Vault: the records of state/vault.rs and state/token_mint.rs. Profile: programs/enrg-profile.
--   Reputation, Pool, Governance, Vesting: the files of that name under state and instructions. Of
--   the pools, Handlers and Distribute hold instructions/pool.rs.
--   Treasury: Funds has instructions/funds.rs and buyback.rs, Setup initialize.rs, initialize_token.rs,
--   init_config.rs and init_founder.rs, Stakes staking.rs; Supply joins all operations that change
--   the supply of the token in one type of histories.
--   Manifest: instructions/manifest_registry.rs and manifest_verification.rs. Poi:
--   instructions/poi_commitment.rs and state/poi.rs.
--   Merkle: instructions/merkle_proof_verification.rs, with the program's own SHA-256 in Sha256, and
--   buildMerkleRoot of oracle/registry/app.js, which builds the tree whose root the registry holds.
--   Mint: instructions/mint.rs in stages (Accounts, Checks, Payments), which calls Ed25519,
--   Validation, Policy, Quorum, Profile, Math, Reputation and Pool in the order of the source.
--   Program: lib.rs, by its phases. Accounts has the ledger, the accounts of both programs by their
--   addresses; Bootstrap, Minting, Payouts, DeviceCalls and Votes load the accounts of each instruction,
--   run its handler and store what it writes; run dispatches. Runs has the runs of instructions, which
--   Supply, Valid, Records, Replay and Roles reason about, and Ends, by which a chain of steps is
--   followed to its end.
--
-- A handler is a function from the accounts that it reads, the signer and its arguments to the
-- accounts that it writes, or an error; an error aborts the transaction, so that nothing is written.
-- The constraints of an Accounts struct stand first. An account stands for the one at the address that
-- its seeds derive; where a handler derives the address itself, the derivation is a function of the
-- runtime. An address is a number, its 32 bytes in little-endian order. A word is a number, and every
-- operation says what happens past its maximum; the workspace is built with overflow checks, so an
-- overflow of a plain operation is an abort (panic).
--
-- Fuel: the loop of the exponential has 65 rounds, in which the counter of the source passes its
-- bound; those of the logarithm have 200, the bound of the source. The tree of the publisher has as many rounds as it has leaves, and the padding of SHA-256 64.
--
-- A byte is a number; what is proved holds whether or not it is below 256. What is said of Merkle proofs
-- does not assume that SHA-256 has no collisions: Merkle.Inputs lists the strings that the publisher
-- hashes and those that a check hashes, and a statement gives its conclusion or two of them that clash.
-- What the Ed25519 precompile reads is in Ed25519.Precompile, with the data of the transaction's
-- instructions as a parameter; other statements on signatures say what an instruction carries.
--
-- Not modelled: events and logs but for the split of a reward, rent, bumps and account sizes, compute
-- limits; of what runs off chain, all but the publisher's tree. Token accounts and the remaining
-- accounts of a distribution are arguments of a call, since the token program keeps them; an address
-- under the other program is given by a parameter, derive.
pub mod Prelude
pub mod Constants
pub mod Manifest
pub mod Math
pub mod Solana
pub mod Merkle
pub mod Messages
pub mod Ed25519
pub mod Device
pub mod Validation
pub mod Poi
pub mod Policy
pub mod Oracle
pub mod Quorum
pub mod Treasury
pub mod Vault
pub mod Profile
pub mod Program
pub mod Reputation
pub mod Pool
pub mod Mint
pub mod Vesting
pub mod Governance
pub mod Samples
