-- ===== src/Poi/Committed.antt =====
-- What a commitment shows.
use mathlib.Core.Path.{subst}
use enrg.Prelude.{
  ℕ, suc, ◌≡◌, ◌≢◌, refl, sym, ap, arith, Option, none, false, not, ◌==◌, ok, require_then,
  check_then, ok-injective,
}
use enrg.Solana.{Pubkey, default_key, Bytes, all_zero, vacant, vacant-none, Runtime}
use enrg.Messages.{to_bytes, poi_commit_message}
use enrg.Ed25519.{max_scan_back, verify_ed25519_signature}
use enrg.Ed25519.Sound.{CarriedBy, verify_ed25519_signature_sound}
use enrg.Poi.{PoiCommitment, commit_contribution}

-- An instruction of the precompile carries the device's signature of the round and the digest.
pub record IsCommitted (rt : Runtime) (out : PoiCommitment) : Type 0 where
  carried :
      CarriedBy rt.instruction_back
        (suc max_scan_back)
        out.signature
        (to_bytes out.device_id)
        (poi_commit_message out.round out.device_id out.digest)
  a_device : out.device_id ≢ default_key
  a_digest : all_zero out.digest ≡ false
  at_clock : out.committed_at ≡ rt.now

-- A commitment is made only once for its account, and for a device other than the default key and
-- a digest that is not all zero; one of the last nine instructions is the Ed25519 precompile's
-- and carries, at its offsets and with indices of 0 or 65,535, the device's key, the signature
-- and the message of the round, the device and the digest; and the record holds these values and
-- the time.
pub commit_contribution-IsCommitted :
    (rt : Runtime) (existing : Option PoiCommitment) (device_id instructions : Pubkey) (round : ℕ)
    (digest signature : Bytes) (out : PoiCommitment)
    → commit_contribution rt existing device_id instructions round digest signature ≡ ok out
    → IsCommitted rt out
      × (existing ≡ none)
      × (out.device_id ≡ device_id)
      × (out.round ≡ round)
      × (out.digest ≡ digest)
unfolding commit_contribution
commit_contribution-IsCommitted rt existing device_id instructions round digest signature out h =
    let message = poi_commit_message round device_id digest in
    let key = to_bytes device_id in
    let (fresh, h₁) = check_then (vacant existing) _ h in
    let (device, h₂) = require_then (not (device_id == default_key)) _ _ h₁ in
    let (content, h₃) = require_then (not (all_zero digest)) _ _ h₂ in
    let (verified, h₄) =
      check_then (verify_ed25519_signature rt signature key message instructions) _ h₃ in
    let (_, found) =
      verify_ed25519_signature_sound rt signature key message instructions verified in
    let written : PoiCommitment = record {
      device_id = device_id;
      round = round;
      digest = digest;
      signature = signature;
      committed_at = rt.now;
    } in
    let same : written ≡ out = ok-injective written out h₄ in
    let committed : IsCommitted rt written = record {
      carried = found;
      a_device = ground arith;
      a_digest = ground arith;
      at_clock = refl;
    } in
    (
      subst (IsCommitted rt) same committed,
      vacant-none existing fresh,
      sym (ap (λ o. o.device_id) same),
      sym (ap (λ o. o.round) same),
      sym (ap (λ o. o.digest) same),
    )
