-- ===== src/Ed25519/Sound.antt =====
-- Where an accepted signature stands: an instruction of the Ed25519 precompile among the last nine,
-- whose data carry it with the expected key and message. What the precompile reads is in Precompile.
use enrg.Prelude.{
  ℕ, zero, suc, ◌+◌, ◌*◌, ◌/◌, ◌%◌, ◌<◌, ◌≡◌, refl, ◌⊎◌, inl, inr, ◌||◌, not, ltb, if◌then◌else◌,
  ◌∙◌, Bool, true, false, [], ◌∷◌, ◌++◌, arith, Bool-cases, length, take, drop, ap, ==→eq,
  bytes_eq_refl, length-append, bytes_eq→eq, bytes_eq, ◌==◌, ◌&&◌, ok, require_then,
}
use mathlib.Core.List.{append_assoc}
use enrg.Constants.{ed25519_program_id, instructions_sysvar_id}
use enrg.Solana.{Pubkey, Bytes, Runtime, Relative, Instruction}
use enrg.Ed25519.{
  byte_at, u16_at, slice, is_self, verify_ed25519_instruction_data, is_verification, scan_back,
  max_scan_back, verify_ed25519_signature,
}

-- An instruction of the precompile that carries a signature, a key and a message at its offsets,
-- with indices that the program takes for its own.
pub record Carries (ix : Instruction) (signature public_key message : Bytes) : Type 0 where
  pub by_precompile : ix.program_id ≡ ed25519_program_id
  pub one_signature : byte_at ix.body 0 ≡ 1
  pub signature_index : is_self (u16_at ix.body 4) ≡ true
  pub key_index : is_self (u16_at ix.body 8) ≡ true
  pub message_index : is_self (u16_at ix.body 14) ≡ true
  pub signature_at : slice ix.body (u16_at ix.body 2) 64 ≡ signature
  pub key_at : slice ix.body (u16_at ix.body 6) 32 ≡ public_key
  pub message_at : slice ix.body (u16_at ix.body 10) (u16_at ix.body 12) ≡ message

is_verification-Carries :
    (ix : Instruction) (s p m : Bytes) → is_verification ix s p m ≡ true → Carries ix s p m
unfolding is_verification verify_ed25519_instruction_data
is_verification-Carries ix s p m h =
    let body = ix.body in
    ground (
      arith,
      bytes_eq→eq (slice body (u16_at body 2) 64) s,
      bytes_eq→eq (slice body (u16_at body 6) 32) p,
      bytes_eq→eq (slice body (u16_at body 10) (u16_at body 12)) m,
    )

Relative-cases :
    (r : Relative)
    → ((ix : Instruction) × (r ≡ Relative.found ix))
      ⊎ ((r ≡ Relative.unsupported_sysvar) ⊎ (r ≡ Relative.out_of_range))
Relative-cases (Relative.found ix) = inl (ix, refl)
Relative-cases Relative.unsupported_sysvar = inr (inl refl)
Relative-cases Relative.out_of_range = inr (inr refl)

abbrev pub CarriedBy : (ℕ → Relative) → ℕ → Bytes → Bytes → Bytes → Type 0
CarriedBy back last s p m =
    (j : ℕ) × (ix : Instruction) × (j < last) × (back j ≡ Relative.found ix) × Carries ix s p m

scan_back_sound :
    (back : ℕ → Relative) (rounds i : ℕ) (s p m : Bytes)
    → scan_back back rounds i s p m ≡ ok tt
    → CarriedBy back (i + rounds) s p m
unfolding scan_back
scan_back_sound back zero i s p m h = cc
scan_back_sound back (suc rounds) i s p m h = elim (Relative-cases (back i)) [
  | inl (ix, e) ↦ elim (Bool-cases (is_verification ix s p m)) [
    | inl here ↦ (i, ix, omega arith, e, is_verification-Carries ix s p m here)
    | inr not_here ↦
        let (j, ix', lt, e', v) = scan_back_sound back rounds (i + 1) s p m (ground arith) in
        (j, ix', omega arith, e', v)
  ]
  | inr (inl e) ↦ absurd (ground arith)
  | inr (inr e) ↦ absurd (ground arith)
]

pub verify_ed25519_signature_sound :
    (rt : Runtime) (s p m : Bytes) (sysvar : Pubkey)
    → verify_ed25519_signature rt s p m sysvar ≡ ok tt
    → (sysvar ≡ instructions_sysvar_id) × CarriedBy rt.instruction_back (suc max_scan_back) s p m
unfolding verify_ed25519_signature
verify_ed25519_signature_sound rt s p m sysvar h =
    let (not_empty, h₁) = require_then _ _ _ h in
    let (is_sysvar, h₂) = require_then _ _ _ h₁ in
    (
      ==→eq sysvar instructions_sysvar_id is_sysvar,
      scan_back_sound rt.instruction_back (suc max_scan_back) 0 s p m h₂,
    )

-- The data that a client builds, with the bytes of the indices: the header, then the signature, the
-- key and the message.
abbrev pub laid_out : ℕ → Bytes → Bytes → Bytes → Bytes
laid_out i s p m =
    1
    ∷ 0
    ∷ 16
    ∷ 0
    ∷ i
    ∷ i
    ∷ 80
    ∷ 0
    ∷ i
    ∷ i
    ∷ 112
    ∷ 0
    ∷ (length m % 256)
    ∷ (length m / 256)
    ∷ i
    ∷ i
    ∷ (s ++ (p ++ m))

-- Every part in the instruction itself.
unfoldable pub build_data : Bytes → Bytes → Bytes → Bytes
build_data s p m = laid_out 255 s p m

take_exact : (xs ys : Bytes) (n : ℕ) → length xs ≡ n → take n (xs ++ ys) ≡ xs
take_exact [] ys zero e = refl
take_exact [] ys (suc n) e = absurd (omega arith)
take_exact (x ∷ xs) ys zero e = absurd (omega arith)
take_exact (x ∷ xs) ys (suc n) e = ap (λ t. x ∷ t) (take_exact xs ys n (omega arith))

drop_exact : (xs ys : Bytes) (n : ℕ) → length xs ≡ n → drop n (xs ++ ys) ≡ ys
drop_exact [] ys zero e = refl
drop_exact [] ys (suc n) e = absurd (omega arith)
drop_exact (x ∷ xs) ys zero e = absurd (omega arith)
drop_exact (x ∷ xs) ys (suc n) e = drop_exact xs ys n (omega arith)

take_all : (xs : Bytes) → take (length xs) xs ≡ xs
take_all [] = refl
take_all (x ∷ xs) = ap (λ t. x ∷ t) (take_all xs)

-- The tests of the lengths pass on a layout without gaps.
layout_tests :
    (l n : ℕ) (b : Bool)
    → l ≡ 112 + n
    → (if ltb l 16
        then false
        else if not (n == n)
        then false
        else if ltb l 80 || ltb l 112 || ltb l (112 + n)
        then false
        else b)
      ≡ b
layout_tests l n b e = ground arith

all_equal : (s p m : Bytes) → (bytes_eq s s && bytes_eq p p && bytes_eq m m) ≡ true
all_equal s p m = rw (bytes_eq_refl s, bytes_eq_refl p, bytes_eq_refl m)

-- The parts stand at the offsets of the header.
pub record AreParts (s p m body : Bytes) : Type 0 where
  pub size : length m % 256 + 256 * (length m / 256) ≡ length m
  pub signature_part : take 64 (drop 16 body) ≡ s
  pub key_part : take 32 (drop 80 body) ≡ p
  pub message_part : take (length m) (drop 112 body) ≡ m

pub laid_out-AreParts :
    (i : ℕ) (s p m : Bytes) → length s ≡ 64 → length p ≡ 32 → AreParts s p m (laid_out i s p m)
laid_out-AreParts i s p m hs hp =
    let b : take 32 (drop 64 (s ++ (p ++ m))) ≡ p =
      rw (drop_exact s (p ++ m) 64 hs) (take_exact p m 32 hp) in
    let c : drop 96 (s ++ (p ++ m)) ≡ m =
      rw (← append_assoc s p m) (drop_exact (s ++ p) m 96 (omega (arith, length-append s p))) in
    record {
      size = omega arith;
      signature_part = take_exact s (p ++ m) 64 hs;
      key_part = b;
      message_part = rw c (take_all m);
    }

pub laid_out_accepted :
    (i : ℕ) (s p m : Bytes)
    → is_self (i + 256 * i) ≡ true
    → length s ≡ 64
    → length p ≡ 32
    → verify_ed25519_instruction_data (laid_out i s p m) s p m ≡ true
unfolding verify_ed25519_instruction_data
laid_out_accepted i s p m own hs hp =
    let parts = laid_out-AreParts i s p m hs hp in
    let all = length-append s (p ++ m) in
    let some_of = length-append p m in
    rw (own, parts.size, parts.signature_part, parts.key_part, parts.message_part)
      (layout_tests (length (laid_out i s p m)) (length m) _ (omega arith) ∙ all_equal s p m)
