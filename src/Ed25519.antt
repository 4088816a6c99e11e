-- ===== src/Ed25519.antt =====
-- The check of Ed25519 signatures: programs/enrg-mvp/src/security/ed25519.rs and
-- verify_ed25519_signature of security/mod.rs. The runtime verifies the signatures of the
-- precompile's instructions; the program looks for such an instruction over its own data.
pub mod Sound
pub mod Precompile
mod Tests
use enrg.Prelude.{
  ℕ, zero, suc, ◌+◌, ◌*◌, Bool, true, false, not, ◌&&◌, ◌||◌, List, [], ◌∷◌, ltb, ◌==◌,
  if◌then◌else◌, length, take, drop, bytes_eq, Result, ok, err, code, require, ErrorCode, ◌>>◌,
}
use enrg.Constants.{ed25519_program_id, instructions_sysvar_id}
use enrg.Solana.{Pubkey, Bytes, Runtime, Relative, Instruction}

-- `data[i]`; each index that is read lies below the header's 16 bytes.
abbrev pub byte_at : Bytes → ℕ → ℕ
byte_at [] i = 0
byte_at (b ∷ bs) zero = b
byte_at (b ∷ bs) (suc i) = byte_at bs i

-- `u16::from_le_bytes([data[i], data[i + 1]])`
abbrev pub u16_at : Bytes → ℕ → ℕ
u16_at bs i = byte_at bs i + 256 * byte_at bs (suc i)

-- `&data[from..from + n]`
abbrev pub slice : Bytes → ℕ → ℕ → Bytes
slice bs from n = take n (drop from bs)

abbrev pub is_self : ℕ → Bool
is_self i = (i == 0) || (i == 65_535)

unfoldable pub verify_ed25519_instruction_data : Bytes → Bytes → Bytes → Bytes → Bool
verify_ed25519_instruction_data body signature public_key message =
    let sig_offset = u16_at body 2 in
    let sig_ix_index = u16_at body 4 in
    let pk_offset = u16_at body 6 in
    let pk_ix_index = u16_at body 8 in
    let msg_offset = u16_at body 10 in
    let msg_size = u16_at body 12 in
    let msg_ix_index = u16_at body 14 in
    if ltb (length body) 16
    then false
    else if not (byte_at body 0 == 1)
    then false
    else if not (is_self sig_ix_index) || not (is_self pk_ix_index) || not (is_self msg_ix_index)
    then false
    else if not (msg_size == length message)
    then false
    else if ltb (length body) (sig_offset + 64)
        || ltb (length body) (pk_offset + 32)
        || ltb (length body) (msg_offset + msg_size)
    then false
    else (bytes_eq (slice body sig_offset 64) signature
        && bytes_eq (slice body pk_offset 32) public_key
        && bytes_eq (slice body msg_offset msg_size) message)

-- Whether an instruction is the precompile's, over these data.
unfoldable pub is_verification : Instruction → Bytes → Bytes → Bytes → Bool
is_verification ix signature public_key message =
    (ix.program_id == ed25519_program_id)
    && verify_ed25519_instruction_data ix.body signature public_key message

-- The loop `for i in 0..=MAX_SCAN_BACK`, on the rounds left and `i`.
unfoldable pub scan_back : (ℕ → Relative) → ℕ → ℕ → Bytes → Bytes → Bytes → Result (Unit {0})
scan_back instruction_back zero i signature public_key message =
    err (code ErrorCode.ed25519_verification_failed)
scan_back instruction_back (suc rounds) i signature public_key message =
    let rest = scan_back instruction_back rounds (i + 1) signature public_key message in
    elim (instruction_back i) [
      | Relative.found ix ↦ if is_verification ix signature public_key message then ok tt else rest
      | Relative.unsupported_sysvar ↦ err (code ErrorCode.invalid_instructions_account)
      | Relative.out_of_range ↦ err (code ErrorCode.ed25519_verification_failed)
    ]

abbrev pub max_scan_back : ℕ
max_scan_back = 8

abbrev is_empty : Bytes → Bool
is_empty [] = true
is_empty (_ ∷ _) = false

unfoldable pub verify_ed25519_signature :
    Runtime → Bytes → Bytes → Bytes → Pubkey → Result (Unit {0})
unfolding scan_back is_verification verify_ed25519_instruction_data bytes_eq
verify_ed25519_signature rt signature public_key message instructions_sysvar = do
  require (not (is_empty message)) ErrorCode.invalid_parameter
  require (instructions_sysvar == instructions_sysvar_id) ErrorCode.invalid_instructions_account
  scan_back rt.instruction_back (suc max_scan_back) 0 signature public_key message
