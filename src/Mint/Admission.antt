-- ===== src/Mint/Admission.antt =====
-- What a mint passes before anything is written.
use enrg.Prelude.{
  WhenOn, when_true, ◌<◌, ◌≡◌, refl, true, false, not, ◌==◌, Option, none, some, ok, arith,
  check_then, require_then, require-ok, bytes_eq→eq, ltb→lt, bytes_eq, ==→eq, ltb,
}
use enrg.Solana.{Runtime}
use enrg.Messages.{
  OracleReport, to_bytes, device_message_to_sign, oracle_message_to_sign, report_proof_hash,
}
use enrg.Ed25519.{verify_ed25519_signature}
use enrg.Ed25519.Sound.{verify_ed25519_signature_sound, CarriedBy}
use enrg.Device.{EnergyProducer, roll_month}
use enrg.Validation.{verify_nonce}
use enrg.Oracle.{trusts}
use enrg.Policy.{MintPreambleInput}
use enrg.Policy.Preamble.{in_force, IsAllowed, evaluate_preamble-IsAllowed}
use enrg.Mint.{
  MintContext, MintState, Attested, mint_submitter_authorized, check_accounts, authenticate,
  check_attestation, attestation_address, quorum_gate, preamble, admit,
}

-- Instructions of the precompile carry the device's message under its key and the oracle's under its.
pub record IsAuthentic (rt : Runtime) (c : MintContext) (p : EnergyProducer) (r : OracleReport)
    : Type 0 where
  pub is_live : p.revoked ≡ false
  pub is_device : p.device_id ≡ r.device_id
  pub is_submitter : mint_submitter_authorized p.authority c.submitter r.oracle ≡ true
  pub by_device :
      CarriedBy rt.instruction_back 9 r.device_signature
        (to_bytes r.device_id)
        (device_message_to_sign r)
  pub by_oracle :
      CarriedBy rt.instruction_back 9 r.oracle_signature
        (to_bytes r.oracle)
        (oracle_message_to_sign r)
  pub is_new : p.nonce < r.nonce

authenticate-IsAuthentic :
    (rt : Runtime) (c : MintContext) (p : EnergyProducer) (r : OracleReport)
    → authenticate rt c p r ≡ ok tt
    → IsAuthentic rt c p r
unfolding authenticate verify_nonce
authenticate-IsAuthentic rt c p r h =
    let (live, h₁) = require_then (not p.revoked) _ _ h in
    let (device, h₂) = require_then (p.device_id == r.device_id) _ _ h₁ in
    let (submitter, h₃) =
      require_then (mint_submitter_authorized p.authority c.submitter r.oracle) _ _ h₂ in
    let device_key = to_bytes r.device_id in
    let device_message = device_message_to_sign r in
    let oracle_key = to_bytes r.oracle in
    let oracle_message = oracle_message_to_sign r in
    let (d, h₄) =
      check_then
        (verify_ed25519_signature rt r.device_signature device_key device_message c.instructions) _
        h₃ in
    let (o, h₅) =
      check_then
        (verify_ed25519_signature rt r.oracle_signature oracle_key oracle_message c.instructions) _
        h₄ in
    record {
      is_live = ground arith;
      is_device = ==→eq p.device_id r.device_id device;
      is_submitter = submitter;
      by_device =
          (verify_ed25519_signature_sound rt r.device_signature device_key device_message
            c.instructions d).1;
      by_oracle =
          (verify_ed25519_signature_sound rt r.oracle_signature oracle_key oracle_message
            c.instructions o).1;
      is_new = ltb→lt p.nonce r.nonce (require-ok (ltb p.nonce r.nonce) _ h₅);
    }

-- A finalized attestation of exactly this report, at its canonical address.
pub record IsAttested (rt : Runtime) (r : OracleReport) (att : Attested) : Type 0 where
  pub is_final : att.account.finalized ≡ true
  pub is_device : att.account.device_id ≡ r.device_id
  pub is_nonce : att.account.nonce ≡ r.nonce
  pub is_canonical : att.key ≡ attestation_address rt r
  pub is_hash : att.account.proof_hash ≡ report_proof_hash rt.sha256 r

check_attestation-IsAttested :
    (rt : Runtime) (r : OracleReport) (o : Option Attested)
    → check_attestation rt r o ≡ ok tt
    → (att : Attested) × (o ≡ some att) × IsAttested rt r att
unfolding check_attestation
check_attestation-IsAttested rt r none h = absurd (ground arith)
check_attestation-IsAttested rt r (some att) h =
    let a = att.account in
    let (final, h₁) = require_then a.finalized _ _ h in
    let (device, h₂) = require_then (a.device_id == r.device_id) _ _ h₁ in
    let (nonce, h₃) = require_then (a.nonce == r.nonce) _ _ h₂ in
    let (canonical, h₄) = require_then (att.key == attestation_address rt r) _ _ h₃ in
    let same = require-ok (bytes_eq a.proof_hash (report_proof_hash rt.sha256 r)) _ h₄ in
    (
      att,
      refl,
      record {
        is_final = final;
        is_device = ==→eq a.device_id r.device_id device;
        is_nonce = ==→eq a.nonce r.nonce nonce;
        is_canonical = ==→eq att.key (attestation_address rt r) canonical;
        is_hash = bytes_eq→eq a.proof_hash (report_proof_hash rt.sha256 r) same;
      },
    )

quorum_gate-IsAttested :
    (rt : Runtime) (c : MintContext) (r : OracleReport)
    → quorum_gate rt c r ≡ ok tt
    → c.oracle_quorum_config.required ≡ true
    → (att : Attested) × (c.attestation ≡ some att) × IsAttested rt r att
unfolding quorum_gate
quorum_gate-IsAttested rt c r h required =
    check_attestation-IsAttested rt r c.attestation (ground arith)

-- What the policies are asked about a mint.
abbrev pub asked : Runtime → MintContext → MintState → OracleReport → MintPreambleInput
asked rt c s r = record {
  policy = c.policy_registry;
  producer = roll_month s.producer rt.now;
  report = r;
  oracle_trusted = trusts c.oracle_registry r.oracle;
  profile_rated_power = s.profile.rated_power;
  now = rt.now;
}

pub admit_sound :
    (rt : Runtime) (c : MintContext) (s : MintState) (r : OracleReport)
    → admit rt c s r ≡ ok tt
    → IsAuthentic rt c (roll_month s.producer rt.now) r
      × IsAllowed (in_force c.policy_registry) (asked rt c s r)
      × WhenOn c.oracle_quorum_config.required
          ((att : Attested) × (c.attestation ≡ some att) × IsAttested rt r att)
unfolding admit preamble
admit_sound rt c s r h =
    let p = roll_month s.producer rt.now in
    let (_, h₁) = check_then (check_accounts c s.producer) _ h in
    let (authentic, h₂) = check_then (authenticate rt c p r) _ h₁ in
    let (gated, allowed) = check_then (quorum_gate rt c r) _ h₂ in
    (
      authenticate-IsAuthentic rt c p r authentic,
      evaluate_preamble-IsAllowed (asked rt c s r) allowed,
      when_true c.oracle_quorum_config.required (quorum_gate-IsAttested rt c r gated),
    )
