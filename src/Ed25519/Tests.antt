-- ===== src/Ed25519/Tests.antt =====
-- An instruction of the precompile that carries a signature of two bytes of message.
use enrg.Prelude.{◌<◌, ◌⊎◌, true, arith, ℕ, zero, suc, ◌≡◌, refl, [], ◌∷◌, ok}
use enrg.Prelude.Int.{pos}
use enrg.Constants.{ed25519_program_id, instructions_sysvar_id}
use enrg.Solana.{Bytes, Relative, Runtime, Instruction}
use enrg.Ed25519.{
  verify_ed25519_instruction_data, is_verification, scan_back, verify_ed25519_signature,
}
use enrg.Ed25519.Sound.{Carries, build_data}
use enrg.Ed25519.Precompile.{
  IsVerified, PointsElsewhere, zero_data, verify_ed25519_signature-IsVerified, layouts_accepted,
}

abbrev repeat : ℕ → ℕ → Bytes
repeat zero b = []
repeat (suc n) b = b ∷ repeat n b

abbrev signed_runtime : Runtime
signed_runtime = record {
  now = pos 0;
  find_program_address = λ seeds. 0;
  sha256 = λ bytes. [];
  invoke = λ call. ok tt;
  instruction_back = λ n. Relative.found (record {
    program_id = ed25519_program_id;
    body = build_data (repeat 64 1) (repeat 32 2) (3 ∷ 4 ∷ []);
  });
}

verifies :
    verify_ed25519_signature signed_runtime
      (repeat 64 1)
      (repeat 32 2)
      (3 ∷ 4 ∷ [])
      instructions_sysvar_id
    ≡ ok tt
unfolding verify_ed25519_signature scan_back is_verification verify_ed25519_instruction_data
    build_data
verifies = refl

-- The data of the instructions of a transaction of which the precompile's is not the first.
abbrev a_transaction : ℕ → Bytes
a_transaction zero = repeat 200 9
a_transaction (suc _) = build_data (repeat 64 1) (repeat 32 2) (3 ∷ 4 ∷ [])

verify_ed25519_signature-IsVerified_example :
    (instructions_sysvar_id ≡ instructions_sysvar_id)
    × (j : ℕ) × (ix : Instruction) × (j < 9)
    × (signed_runtime.instruction_back j ≡ Relative.found ix)
    × Carries ix (repeat 64 1) (repeat 32 2) (3 ∷ 4 ∷ [])
    × (IsVerified a_transaction ix.body (repeat 64 1) (repeat 32 2) (3 ∷ 4 ∷ [])
        ⊎ PointsElsewhere a_transaction ix.body)
verify_ed25519_signature-IsVerified_example =
    verify_ed25519_signature-IsVerified signed_runtime a_transaction (repeat 64 1) (repeat 32 2)
      (3 ∷ 4 ∷ []) instructions_sysvar_id verifies

layouts_accepted_example :
    (verify_ed25519_instruction_data
        (build_data (repeat 64 1) (repeat 32 2) (3 ∷ 4 ∷ []))
        (repeat 64 1)
        (repeat 32 2)
        (3 ∷ 4 ∷ [])
      ≡ true)
    × IsVerified a_transaction
        (build_data (repeat 64 1) (repeat 32 2) (3 ∷ 4 ∷ []))
        (repeat 64 1)
        (repeat 32 2)
        (3 ∷ 4 ∷ [])
    × (verify_ed25519_instruction_data
          (zero_data (repeat 64 1) (repeat 32 2) (3 ∷ 4 ∷ []))
          (repeat 64 1)
          (repeat 32 2)
          (3 ∷ 4 ∷ [])
        ≡ true)
    × IsVerified a_transaction
        (zero_data (repeat 64 1) (repeat 32 2) (3 ∷ 4 ∷ []))
        (repeat 64 9)
        (repeat 32 9)
        (9 ∷ 9 ∷ [])
layouts_accepted_example =
    layouts_accepted a_transaction (repeat 64 1) (repeat 32 2) (3 ∷ 4 ∷ []) refl refl (omega arith)
