-- ===== src/Ed25519/Precompile.antt =====
-- What the Ed25519 precompile reads for an instruction that the program accepts. By its documentation
-- it takes a part from the instruction itself at the index 65,535, and at any other index from the
-- instruction at that place of the transaction.
use enrg.Prelude.{
  ℕ, suc, ◌<◌, ◌≡◌, ◌≢◌, refl, ap, ◌∙◌, ◌⊎◌, inl, inr, arith, true, ◌==◌, if◌then◌else◌, Bool-cases,
  length, bytes_eq, bytes_eq→eq, bytes_eq_refl, ok,
}
use enrg.Constants.{instructions_sysvar_id}
use enrg.Solana.{Pubkey, Bytes, Runtime, Relative, Instruction}
use enrg.Ed25519.{
  u16_at, slice, is_self, max_scan_back, verify_ed25519_instruction_data, verify_ed25519_signature,
}
use enrg.Ed25519.Sound.{
  Carries, laid_out, build_data, laid_out-AreParts, laid_out_accepted,
  verify_ed25519_signature_sound,
}

-- The data of the instructions of the transaction by their places, and of the precompile's own.
module _ (transaction : ℕ → Bytes) (own : Bytes) where
  abbrev pub data_at : ℕ → Bytes
  data_at index = if index == 65_535 then own else transaction index

  -- What the precompile verifies for an instruction with these data.
  pub record IsVerified (signature public_key message : Bytes) : Type 0 where
    pub signature_read : slice (data_at (u16_at own 4)) (u16_at own 2) 64 ≡ signature
    pub key_read : slice (data_at (u16_at own 8)) (u16_at own 6) 32 ≡ public_key
    pub message_read : slice (data_at (u16_at own 14)) (u16_at own 10) (u16_at own 12) ≡ message

  -- Some part stands in the first instruction, and that is another one.
  pub record PointsElsewhere : Type 0 where
    pub points : (u16_at own 4 ≡ 0) ⊎ ((u16_at own 8 ≡ 0) ⊎ (u16_at own 14 ≡ 0))
    pub elsewhere : transaction 0 ≢ own

  self_cases : (i : ℕ) → is_self i ≡ true → (i ≡ 0) ⊎ (data_at i ≡ own)
  self_cases i h = elim (Bool-cases (i == 65_535)) [
    | inl self ↦ inr (rw self refl)
    | inr other ↦ inl (ground arith)
  ]

  first_is_own : (i : ℕ) → transaction 0 ≡ own → is_self i ≡ true → data_at i ≡ own
  first_is_own i e h = elim (self_cases i h) [ inl first ↦ rw first e | inr self ↦ self ]

  Carries-IsVerified :
      (id : Pubkey) (s p m : Bytes)
      → Carries (record { program_id = id; body = own }) s p m
      → data_at (u16_at own 4) ≡ own
      → data_at (u16_at own 8) ≡ own
      → data_at (u16_at own 14) ≡ own
      → IsVerified s p m
  Carries-IsVerified id s p m c a b d = record {
    signature_read = ap (λ x. slice x (u16_at own 2) 64) a ∙ c.signature_at;
    key_read = ap (λ x. slice x (u16_at own 6) 32) b ∙ c.key_at;
    message_read = ap (λ x. slice x (u16_at own 10) (u16_at own 12)) d ∙ c.message_at;
  }

  read_or_elsewhere :
      (id : Pubkey) (s p m : Bytes)
      → Carries (record { program_id = id; body = own }) s p m
      → IsVerified s p m ⊎ PointsElsewhere
  read_or_elsewhere id s p m c = elim (Bool-cases (bytes_eq (transaction 0) own)) [
    | inl same ↦
        let e = bytes_eq→eq (transaction 0) own same in
        inl (
          Carries-IsVerified id s p m c (first_is_own (u16_at own 4) e c.signature_index)
            (first_is_own (u16_at own 8) e c.key_index)
            (first_is_own (u16_at own 14) e c.message_index))
    | inr other ↦
        let differ : transaction 0 ≢ own =
          λ e. cc (ap (bytes_eq (transaction 0)) e, bytes_eq_refl (transaction 0)) in
        elim (self_cases (u16_at own 4) c.signature_index) [
          | inl first ↦ inr (record { points = inl first; elsewhere = differ })
          | inr a ↦ elim (self_cases (u16_at own 8) c.key_index) [
            | inl first ↦ inr (record { points = inr (inl first); elsewhere = differ })
            | inr b ↦ elim (self_cases (u16_at own 14) c.message_index) [
              | inl first ↦ inr (record { points = inr (inr first); elsewhere = differ })
              | inr d ↦ inl (Carries-IsVerified id s p m c a b d)
            ]
          ]
        ]
  ]

-- When a signature is accepted, the account that was read is the instructions sysvar, and one of
-- the last nine instructions is the Ed25519 precompile's, of one signature, and carries exactly
-- this signature, key and message at its offsets, with each index 0 or 65,535; and either these
-- are the parts that the precompile verifies, which takes a part from the instruction itself at
-- the index 65,535 and otherwise from the instruction at that place of the transaction, or one of
-- the indices is 0 and the first instruction of the transaction has other data.
pub verify_ed25519_signature-IsVerified :
    (rt : Runtime) (transaction : ℕ → Bytes) (s p m : Bytes) (sysvar : Pubkey)
    → verify_ed25519_signature rt s p m sysvar ≡ ok tt
    → (sysvar ≡ instructions_sysvar_id)
      × (j : ℕ) × (ix : Instruction) × (j < suc max_scan_back)
      × (rt.instruction_back j ≡ Relative.found ix)
      × Carries ix s p m
      × (IsVerified transaction ix.body s p m ⊎ PointsElsewhere transaction ix.body)
verify_ed25519_signature-IsVerified rt transaction s p m sysvar h =
    let (e, (j, ix, lt, found, c)) = verify_ed25519_signature_sound rt s p m sysvar h in
    (e, j, ix, lt, found, c, read_or_elsewhere transaction ix.body ix.program_id s p m c)

-- The layout of older clients, with every part in the instruction at index 0.
unfoldable pub zero_data : Bytes → Bytes → Bytes → Bytes
zero_data s p m = laid_out 0 s p m

-- For a signature of 64 bytes, a key of 32 and a message that fits the header, the data that a
-- client builds with indices of 65,535 are accepted for them, and they are what the precompile
-- verifies; the data with indices of 0 are accepted for them too, while the precompile then
-- verifies what the first instruction of the transaction has at the offsets 16, 80 and 112.
pub layouts_accepted :
    (transaction : ℕ → Bytes) (s p m : Bytes)
    → length s ≡ 64
    → length p ≡ 32
    → length m < 65_536
    → (verify_ed25519_instruction_data (build_data s p m) s p m ≡ true)
      × IsVerified transaction (build_data s p m) s p m
      × (verify_ed25519_instruction_data (zero_data s p m) s p m ≡ true)
      × IsVerified transaction
          (zero_data s p m)
          (slice (transaction 0) 16 64)
          (slice (transaction 0) 80 32)
          (slice (transaction 0) 112 (length m))
unfolding build_data zero_data
layouts_accepted transaction s p m hs hp hm =
    let own = laid_out-AreParts 255 s p m hs hp in
    let first = laid_out-AreParts 0 s p m hs hp in
    (
      laid_out_accepted 255 s p m refl hs hp,
      record {
        signature_read = own.signature_part;
        key_read = own.key_part;
        message_read = rw own.size own.message_part;
      },
      laid_out_accepted 0 s p m refl hs hp,
      record {
        signature_read = refl;
        key_read = refl;
        message_read = ap (λ n. slice (transaction 0) 112 n) first.size;
      },
    )
