-- ===== src/Mint/Checks.antt =====
-- What `mint_energy` of programs/enrg-mvp/src/instructions/mint.rs checks before it writes: the
-- signatures, the quorum and the policies.
use enrg.Prelude.{
  not, Option, [], ◌∷◌, ◌==◌, if◌then◌else◌, bytes_eq, Result, ok, ErrorCode, require, ok_or, ◌>>=◌,
  ◌>>◌,
}
use enrg.Solana.{Pubkey, Bytes, Runtime}
use enrg.Messages.{
  OracleReport, to_bytes, u64_bytes, device_message_to_sign, oracle_message_to_sign,
  report_proof_hash,
}
use enrg.Ed25519.{verify_ed25519_signature}
use enrg.Device.{EnergyProducer, roll_month}
use enrg.Validation.{verify_nonce}
use enrg.Policy.{evaluate_preamble}
use enrg.Oracle.{trusts}
use enrg.Profile.{EnergyProfile}
use enrg.Mint.Accounts.{Attested, MintContext, MintState, mint_submitter_authorized, check_accounts}

-- The device, the submitter, both signatures and the nonce.
unfoldable pub authenticate :
    Runtime → MintContext → EnergyProducer → OracleReport → Result (Unit {0})
authenticate rt c p report = do
  require (not p.revoked) ErrorCode.device_revoked
  require (p.device_id == report.device_id) ErrorCode.device_mismatch
  require (mint_submitter_authorized p.authority c.submitter report.oracle)
      ErrorCode.not_producer_owner
  verify_ed25519_signature rt report.device_signature (to_bytes report.device_id)
      (device_message_to_sign report) c.instructions
  verify_ed25519_signature rt report.oracle_signature (to_bytes report.oracle)
      (oracle_message_to_sign report) c.instructions
  verify_nonce p report.nonce

-- `b"oracle-attest"`
abbrev pub oracle_attest_seed : Bytes
oracle_attest_seed = 111 ∷ 114 ∷ 97 ∷ 99 ∷ 108 ∷ 101 ∷ 45 ∷ 97 ∷ 116 ∷ 116 ∷ 101 ∷ 115 ∷ 116 ∷ []

abbrev pub attestation_address : Runtime → OracleReport → Pubkey
attestation_address rt report =
    rt.find_program_address
      (oracle_attest_seed ∷ to_bytes report.device_id ∷ u64_bytes report.nonce ∷ [])

unfoldable pub check_attestation : Runtime → OracleReport → Option Attested → Result (Unit {0})
check_attestation rt report attestation = do
  att ← ok_or attestation ErrorCode.attestation_required
  require att.account.finalized ErrorCode.attestation_not_finalized
  require (att.account.device_id == report.device_id) ErrorCode.device_mismatch
  require (att.account.nonce == report.nonce) ErrorCode.invalid_nonce
  require (att.key == attestation_address rt report) ErrorCode.invalid_parameter
  require (bytes_eq att.account.proof_hash (report_proof_hash rt.sha256 report))
      ErrorCode.attestation_hash_mismatch

unfoldable pub quorum_gate : Runtime → MintContext → OracleReport → Result (Unit {0})
quorum_gate rt c report =
    if c.oracle_quorum_config.required then check_attestation rt report c.attestation else ok tt

unfoldable pub preamble :
    Runtime → MintContext → EnergyProducer → EnergyProfile → OracleReport → Result (Unit {0})
preamble rt c p profile report = evaluate_preamble (record {
  policy = c.policy_registry;
  producer = p;
  report = report;
  oracle_trusted = trusts c.oracle_registry report.oracle;
  profile_rated_power = profile.rated_power;
  now = rt.now;
})

-- The part of the handler before the first write of a token.
unfoldable pub admit : Runtime → MintContext → MintState → OracleReport → Result (Unit {0})
admit rt c s report = do
  check_accounts c s.producer
  let p = roll_month s.producer rt.now
  authenticate rt c p report
  quorum_gate rt c report
  preamble rt c p s.profile report
