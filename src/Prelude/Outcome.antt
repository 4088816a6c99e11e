-- ===== src/Prelude/Outcome.antt =====
-- Anchor's `Result`. An error aborts the transaction, and with it every account write, so a
-- handler returns either its accounts after the writes or the error.
use mathlib.Core.Path.{◌≡◌, refl}
use mathlib.Core.Bool.{Bool, true, false}
use mathlib.Core.Logic.{◌⊎◌, inl, inr}
use mathlib.Core.Option.{Option, none, some}
use Prim.Native.Nat.{ℕ}

-- The codes of programs/enrg-mvp/src/error.rs that the modelled handlers return.
pub data ErrorCode : Type 0 where
  unauthorized invalid_nonce stale_proof excessive_energy insufficient_stake : ErrorCode
  nothing_to_claim already_in_pool invalid_parameter not_found already_exists : ErrorCode
  zero_amount_mint arithmetic_overflow invalid_signature_length : ErrorCode
  invalid_public_key_length ed25519_verification_failed invalid_device_state : ErrorCode
  invalid_state_transition device_in_quarantine device_revoked device_already_revoked : ErrorCode
  new_device_key_registered device_not_registered device_already_claimed : ErrorCode
  registry_overflow manifest_id_mismatch proof_path_too_long invalid_proof : ErrorCode
  invalid_leaf_hash untrusted_manifest_publisher invalid_manifest_leaf : ErrorCode
  unauthorized_token_account_owner device_mismatch not_producer_owner : ErrorCode
  untrusted_oracle invalid_instructions_account future_timestamp : ErrorCode
  device_limit_reached supply_limit_exceeded founder_premine_already_minted : ErrorCode
  unauthorized_deployer not_governance_authority not_governance_member : ErrorCode
  member_already_voted no_active_proposal proposal_not_active proposal_not_approved : ErrorCode
  timelock_not_elapsed amount_cap_exceeded proposal_not_found invalid_member_list : ErrorCode
  duplicate_member destination_mint_mismatch tier_limit_exceeded not_in_pool : ErrorCode
  pool_threshold_not_reached mint_paused not_policy_authority attestation_required : ErrorCode
  attestation_not_finalized attestation_hash_mismatch invalid_quorum_threshold : ErrorCode
  already_claimed not_quorum_authority not_oracle_authority : ErrorCode

-- The codes of the other program, programs/enrg-profile/src/lib.rs.
pub data ProfileCode : Type 0 where
  device_type_too_long location_too_long rated_power_too_high : ProfileCode
  rated_power_immutable unauthorized_caller profile_authority_mismatch : ProfileCode

-- `panic` is an abort by an arithmetic check (`overflow-checks = true`) or an index; `framework`
-- is an error of Anchor, the runtime or another program.
pub data Error : Type 0 where
  code : ErrorCode → Error
  profile_code : ProfileCode → Error
  panic : Error
  framework : ℕ → Error

pub data Result {ℓ} (A : Type ℓ) : Type ℓ where
  ok : A → Result A
  err : Error → Result A

-- `require!(c, ErrorCode::e)`
abbrev pub require : Bool → ErrorCode → Result (Unit {0})
require true e = ok tt
require false e = err (code e)

-- `o.ok_or(ErrorCode::e)?`
abbrev pub ok_or {ℓ} : {A : Type ℓ} → Option A → ErrorCode → Result A
ok_or none e = err (code e)
ok_or (some a) e = ok a

-- The operator `?`: the rest of a handler runs on the value of a step, and an error ends it.
module _ {ℓ κ} {A : Type ℓ} {B : Type κ} where
  infixl 5 ◌>>=◌
  abbrev pub ◌>>=◌ : Result A → (A → Result B) → Result B
  err failure >>= rest = err failure
  ok value >>= rest = rest value

module _ {κ} {B : Type κ} where
  infixl 5 ◌>>◌
  abbrev pub ◌>>◌ : Result (Unit {0}) → Result B → Result B
  check >> rest = check >>= λ _. rest

-- Inversion of a successful `require!` and of a successful bind.
pub require-ok : (b : Bool) (e : ErrorCode) → require b e ≡ ok tt → b ≡ true
require-ok true e h = refl
require-ok false e h = cc

pub ok-injective {ℓ} : {A : Type ℓ} (a b : A) → ok a ≡ ok b → a ≡ b
ok-injective a b h = cc

module _ {ℓ κ} {A : Type ℓ} {B : Type κ} where
  pub >>=-eq-ok :
      (step : Result A) (rest : A → Result B) {out : B}
      → (step >>= rest) ≡ ok out
      → (value : A) × (step ≡ ok value) × (rest value ≡ ok out)
  >>=-eq-ok (err failure) rest ends = cc
  >>=-eq-ok (ok value) rest ends = (value, refl, ends)

module _ {κ} {B : Type κ} where
  pub check_then :
      (m : Result (Unit {0})) (k : Result B) {b : B} → (m >> k) ≡ ok b → (m ≡ ok tt) × (k ≡ ok b)
  check_then (ok tt) k h = (refl, h)
  check_then (err e) k h = cc

  pub require_then :
      (c : Bool) (e : ErrorCode) (k : Result B) {b : B}
      → (require c e >> k) ≡ ok b
      → (c ≡ true) × (k ≡ ok b)
  require_then true e k h = (refl, h)
  require_then false e k h = cc

module _ {ℓ κ} {A : Type ℓ} {B : Type κ} where
  pub ok_or_then :
      (o : Option A) (e : ErrorCode) (f : A → Result B) {b : B}
      → (ok_or o e >>= f) ≡ ok b
      → (a : A) × (o ≡ some a) × (f a ≡ ok b)
  ok_or_then none e f h = cc
  ok_or_then (some a) e f h = (a, refl, h)

-- A `require!` followed by more fails at the test or after it.
module _ {κ} {B : Type κ} where
  pub require_else :
      (c : Bool) (e : ErrorCode) (k : Result B) {f : Error}
      → (require c e >> k) ≡ err f
      → ((c ≡ false) × (f ≡ code e)) ⊎ ((c ≡ true) × (k ≡ err f))
  require_else true e k h = inr (refl, h)
  require_else false e k h = inl (refl, cc)
