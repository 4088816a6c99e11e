-- ===== src/Messages/Separation.antt =====
-- The eight kinds of signed message have eight lengths, so that a signature of one kind is never a
-- signature of another.
use enrg.Prelude.{ℕ, ◌≡◌, sym, ap, ◌∙◌, arith, length, length-append}
use enrg.Prelude.Int.{ℤ}
use enrg.Solana.{Pubkey, Bytes}
use enrg.Messages.{
  to_bytes, u64_bytes, i64_bytes, i64_bits, device_register_message, device_claim_message,
  device_rotate_message, oracle_attest_message, manifest_sign_message, poi_commit_message,
  OracleReport, device_message_to_sign, oracle_message_to_sign,
}
use enrg.Messages.Injective.{length-le_bytes}

-- A message that is signed somewhere in the protocol, with the values that it is built from.
pub data Signed : Type 0 where
  registration : Pubkey → ℤ → Signed
  claim : Pubkey → Pubkey → ℕ → ℤ → Signed
  rotation : Pubkey → Pubkey → ℕ → ℤ → Signed
  vote : Pubkey → ℕ → (hash : Bytes) → length hash ≡ 32 → Signed
  manifest : (id content : Bytes) → ℕ → length id ≡ 16 → length content ≡ 32 → Signed
  commitment : ℕ → Pubkey → (digest : Bytes) → length digest ≡ 32 → Signed
  reading : OracleReport → Signed
  report : OracleReport → Signed

pub data Kind : Type 0 where
  registers claims rotates votes publishes commits reads reports : Kind

pub kind : Signed → Kind
kind (registration _ _) = registers
kind (claim _ _ _ _) = claims
kind (rotation _ _ _ _) = rotates
kind (vote _ _ _ _) = votes
kind (manifest _ _ _ _ _) = publishes
kind (commitment _ _ _ _) = commits
kind (reading _) = reads
kind (report _) = reports

pub message : Signed → Bytes
message (registration d t) = device_register_message d t
message (claim d o n t) = device_claim_message d o n t
message (rotation d o n t) = device_rotate_message d o n t
message (vote d n h _) = oracle_attest_message d n h
message (manifest i c n _ _) = manifest_sign_message i c n
message (commitment r d g _) = poi_commit_message r d g
message (reading r) = device_message_to_sign r
message (report r) = oracle_message_to_sign r

abbrev size : Kind → ℕ
size registers = 60
size claims = 97
size rotates = 98
size votes = 90
size publishes = 62
size commits = 87
size reads = 56
size reports = 64

length-to_bytes : (k : Pubkey) → length (to_bytes k) ≡ 32
unfolding to_bytes
length-to_bytes k = length-le_bytes 32 k

length-u64_bytes : (n : ℕ) → length (u64_bytes n) ≡ 8
unfolding u64_bytes
length-u64_bytes n = length-le_bytes 8 n

length-i64_bytes : (t : ℤ) → length (i64_bytes t) ≡ 8
unfolding i64_bytes
length-i64_bytes t = length-le_bytes 8 (i64_bits t)

ruleset lengths = (length-append, length-to_bytes, length-u64_bytes, length-i64_bytes)

length-message : (m : Signed) → length (message m) ≡ size (kind m)
unfolding message kind device_register_message device_claim_message device_rotate_message
    oracle_attest_message manifest_sign_message poi_commit_message device_message_to_sign
    oracle_message_to_sign
length-message (registration d t) = simp lengths
length-message (claim d o n t) = simp lengths
length-message (rotation d o n t) = simp lengths
length-message (vote d n h e) = simp (lengths, e)
length-message (manifest i c n hi hc) = simp (lengths, hi, hc)
length-message (commitment r d g e) = simp (lengths, e)
length-message (reading r) = simp lengths
length-message (report r) = simp lengths

size-injective : (a b : Kind) → size a ≡ size b → a ≡ b
size-injective a b e = ground arith

-- Two equal messages are of one kind: no registration, claim, rotation, vote, manifest,
-- commitment, device reading or oracle report has the bytes of a message of another of these
-- kinds.
pub message-kind : (m n : Signed) → message m ≡ message n → kind m ≡ kind n
message-kind m n e =
    size-injective (kind m) (kind n) (sym (length-message m) ∙ ap length e ∙ length-message n)
