-- ===== src/Merkle/Padding.antt =====
-- The loop that pads a message for SHA-256 ends, and a hash has 32 bytes.
use enrg.Prelude.{
  ℕ, zero, suc, ◌+◌, ◌-◌, ◌*◌, ◌%◌, ◌^◌, ◌≤◌, ◌≡◌, refl, ap, arith, List, [], ◌∷◌, length,
  length-append, length-push, take, drop, inl, inr, Bool-cases, ◌==◌, ==→eq,
}
use enrg.Solana.{Bytes}
use enrg.Merkle.Sha256.{
  padding_zeros, be_bytes, pad, words_out, compress, compress_all, initial_words, hash,
}

length-be_bytes : (n x : ℕ) → length (be_bytes n x) ≡ n
unfolding be_bytes
length-be_bytes zero x = refl
length-be_bytes (suc n) x = ap suc (length-be_bytes n x)

-- With fuel for the rounds that are left, the loop stops at the first length that is 56 past a
-- multiple of 64.
padding_zeros_end :
    (fuel n : ℕ) → (120 - n % 64) % 64 ≤ fuel → (n + length (padding_zeros fuel n)) % 64 ≡ 56
unfolding padding_zeros
padding_zeros_end zero n enough = omega arith
padding_zeros_end (suc fuel) n enough = elim (Bool-cases (n % 64 == 56)) [
  | inl done ↦ rw done (omega (arith, ==→eq (n % 64) 56 done))
  | inr more ↦ rw more (ground (arith, padding_zeros_end fuel (suc n)))
]

abbrev u64_mod : ℕ
u64_mod = 2 ^ 64

-- The padded message is a whole number of chunks of 64 bytes.
pub pad_blocks : (bytes : Bytes) → length (pad bytes) % 64 ≡ 0
unfolding pad
pad_blocks bytes =
    let n = length bytes in
    simp (length-append, length-be_bytes)
      (omega (arith, padding_zeros_end 64 (suc n) (omega arith), length-push bytes 0x80))

length-words_out : (ws : List ℕ) → length (words_out ws) ≡ 4 * length ws
unfolding words_out
length-words_out [] = refl
length-words_out (w ∷ ws) =
    omega
      (arith, length-append (be_bytes 4 w) (words_out ws), length-be_bytes 4 w, length-words_out ws)

length-compress : (h : List ℕ) (chunk : Bytes) → length (compress h chunk) ≡ 8
unfolding compress
length-compress h chunk = refl

length-compress_all :
    (fuel : ℕ) (h : List ℕ) (msg : Bytes) → length h ≡ 8 → length (compress_all fuel h msg) ≡ 8
unfolding compress_all
length-compress_all zero h msg e = e
length-compress_all (suc fuel) h [] e = e
length-compress_all (suc fuel) h (b ∷ bs) e =
    length-compress_all fuel (compress h (take 64 (b ∷ bs))) (drop 64 (b ∷ bs))
      (length-compress h (take 64 (b ∷ bs)))

pub length-hash : (bytes : Bytes) → length (hash bytes) ≡ 32
unfolding hash
length-hash bytes =
    let msg = pad bytes in
    let words = compress_all (length msg) initial_words msg in
    omega (arith, length-words_out words, length-compress_all (length msg) initial_words msg refl)
