-- ===== src/Merkle/Sha256.antt =====
-- The module `sha256` of programs/enrg-mvp/src/instructions/merkle_proof_verification.rs: the
-- program's own SHA-256. A `u32` is a number below 2 ^ 32, and an array is a list.
use Prim.Native.Nat.{bit_and, bit_xor}
use enrg.Prelude.{
  ℕ, zero, suc, ◌+◌, ◌-◌, ◌*◌, ◌/◌, ◌%◌, ◌^◌, List, [], ◌∷◌, ◌++◌, length, take, drop, push,
  if◌then◌else◌, ◌==◌,
}
use enrg.Solana.{Bytes}

abbrev u32_mod : ℕ
u32_mod = 2 ^ 32

unfoldable pub wrapping_add : ℕ → ℕ → ℕ
wrapping_add a b = (a + b) % u32_mod

-- `u32::rotate_right`, for a distance from 1 to 31.
unfoldable pub rotate_right : ℕ → ℕ → ℕ
rotate_right x n = x / 2 ^ n + (x % 2 ^ n) * 2 ^ (32 - n)

-- `!x`
unfoldable pub bit_not : ℕ → ℕ
bit_not x = u32_mod - 1 - x

-- `words[i]`; past the end, where no index of the algorithm points, it is 0.
unfoldable pub word_at : List ℕ → ℕ → ℕ
word_at [] i = 0
word_at (x ∷ xs) zero = x
word_at (x ∷ xs) (suc i) = word_at xs i

-- The table `K`.
abbrev pub round_constants : List ℕ
round_constants =
    0x428a_2f98 ∷ 0x7137_4491 ∷ 0xb5c0_fbcf ∷ 0xe9b5_dba5 ∷ 0x3956_c25b ∷ 0x59f1_11f1 ∷ 0x923f_82a4
    ∷ 0xab1c_5ed5 ∷ 0xd807_aa98 ∷ 0x1283_5b01 ∷ 0x2431_85be ∷ 0x550c_7dc3 ∷ 0x72be_5d74
    ∷ 0x80de_b1fe ∷ 0x9bdc_06a7 ∷ 0xc19b_f174 ∷ 0xe49b_69c1 ∷ 0xefbe_4786 ∷ 0x0fc1_9dc6
    ∷ 0x240c_a1cc ∷ 0x2de9_2c6f ∷ 0x4a74_84aa ∷ 0x5cb0_a9dc ∷ 0x76f9_88da ∷ 0x983e_5152
    ∷ 0xa831_c66d ∷ 0xb003_27c8 ∷ 0xbf59_7fc7 ∷ 0xc6e0_0bf3 ∷ 0xd5a7_9147 ∷ 0x06ca_6351
    ∷ 0x1429_2967 ∷ 0x27b7_0a85 ∷ 0x2e1b_2138 ∷ 0x4d2c_6dfc ∷ 0x5338_0d13 ∷ 0x650a_7354
    ∷ 0x766a_0abb ∷ 0x81c2_c92e ∷ 0x9272_2c85 ∷ 0xa2bf_e8a1 ∷ 0xa81a_664b ∷ 0xc24b_8b70
    ∷ 0xc76c_51a3 ∷ 0xd192_e819 ∷ 0xd699_0624 ∷ 0xf40e_3585 ∷ 0x106a_a070 ∷ 0x19a4_c116
    ∷ 0x1e37_6c08 ∷ 0x2748_774c ∷ 0x34b0_bcb5 ∷ 0x391c_0cb3 ∷ 0x4ed8_aa4a ∷ 0x5b9c_ca4f
    ∷ 0x682e_6ff3 ∷ 0x748f_82ee ∷ 0x78a5_636f ∷ 0x84c8_7814 ∷ 0x8cc7_0208 ∷ 0x90be_fffa
    ∷ 0xa450_6ceb ∷ 0xbef9_a3f7 ∷ 0xc671_78f2 ∷ []

-- The first value of `h`.
abbrev pub initial_words : List ℕ
initial_words =
    0x6a09_e667 ∷ 0xbb67_ae85 ∷ 0x3c6e_f372 ∷ 0xa54f_f53a ∷ 0x510e_527f ∷ 0x9b05_688c ∷ 0x1f83_d9ab
    ∷ 0x5be0_cd19 ∷ []

-- `to_be_bytes` of a word of `n` bytes.
unfoldable pub be_bytes : ℕ → ℕ → Bytes
be_bytes zero x = []
be_bytes (suc n) x = ((x / 256 ^ n) % 256) ∷ be_bytes n x

-- `while msg.len() % 64 != 56 { msg.push(0) }` on a message of `n` bytes: the bytes pushed. The
-- first argument is fuel, one unit a round.
unfoldable pub padding_zeros : ℕ → ℕ → Bytes
padding_zeros zero n = []
padding_zeros (suc fuel) n = if n % 64 == 56 then [] else 0 ∷ padding_zeros fuel (suc n)

-- The padded message. The length in bits is a `u64`.
unfoldable pub pad : Bytes → Bytes
unfolding padding_zeros be_bytes
pad bytes =
    let n = length bytes in
    push bytes 0x80 ++ (padding_zeros 64 (suc n) ++ be_bytes 8 ((n * 8) % 2 ^ 64))

-- `u32::from_be_bytes` on each four bytes.
unfoldable pub be_words : Bytes → List ℕ
be_words (b0 ∷ b1 ∷ b2 ∷ b3 ∷ bs) = (b0 * 2 ^ 24 + b1 * 2 ^ 16 + b2 * 2 ^ 8 + b3) ∷ be_words bs
be_words bs = []

unfoldable pub small_sigma0 : ℕ → ℕ
unfolding rotate_right
small_sigma0 x = bit_xor (bit_xor (rotate_right x 7) (rotate_right x 18)) (x / 2 ^ 3)

unfoldable pub small_sigma1 : ℕ → ℕ
unfolding rotate_right
small_sigma1 x = bit_xor (bit_xor (rotate_right x 17) (rotate_right x 19)) (x / 2 ^ 10)

-- `for i in 16..64`: so many words more, each pushed at the place `i`.
unfoldable pub extend : ℕ → ℕ → List ℕ → List ℕ
unfolding wrapping_add word_at small_sigma0 small_sigma1
extend zero i w = w
extend (suc rounds) i w =
    let word =
      wrapping_add
        (wrapping_add (wrapping_add (word_at w (i - 16)) (small_sigma0 (word_at w (i - 15))))
          (word_at w (i - 7)))
        (small_sigma1 (word_at w (i - 2))) in
    extend rounds (suc i) (push w word)

-- The working variables `a` to `hh`.
pub record Working : Type 0 where
  pub a : ℕ
  pub b : ℕ
  pub c : ℕ
  pub d : ℕ
  pub e : ℕ
  pub f : ℕ
  pub g : ℕ
  pub hh : ℕ

-- One round, with its constant and its word of the schedule.
unfoldable pub round : Working → ℕ → ℕ → Working
unfolding wrapping_add rotate_right bit_not
round v k w =
    let s1 = bit_xor (bit_xor (rotate_right v.e 6) (rotate_right v.e 11)) (rotate_right v.e 25) in
    let ch = bit_xor (bit_and v.e v.f) (bit_and (bit_not v.e) v.g) in
    let temp1 = wrapping_add (wrapping_add (wrapping_add (wrapping_add v.hh s1) ch) k) w in
    let s0 = bit_xor (bit_xor (rotate_right v.a 2) (rotate_right v.a 13)) (rotate_right v.a 22) in
    let maj = bit_xor (bit_xor (bit_and v.a v.b) (bit_and v.a v.c)) (bit_and v.b v.c) in
    let temp2 = wrapping_add s0 maj in
    record {
      a = wrapping_add temp1 temp2;
      b = v.a;
      c = v.b;
      d = v.c;
      e = wrapping_add v.d temp1;
      f = v.e;
      g = v.f;
      hh = v.g;
    }

unfoldable pub run_rounds : Working → List ℕ → List ℕ → Working
unfolding round
run_rounds v (k ∷ ks) (w ∷ ws) = run_rounds (round v k w) ks ws
run_rounds v ks ws = v

-- The body of the loop over the chunks: the words `h` after one chunk.
unfoldable pub compress : List ℕ → Bytes → List ℕ
unfolding wrapping_add word_at be_words extend run_rounds
compress h chunk =
    let w = extend 48 16 (be_words chunk) in
    let v =
      run_rounds
        (record {
          a = word_at h 0;
          b = word_at h 1;
          c = word_at h 2;
          d = word_at h 3;
          e = word_at h 4;
          f = word_at h 5;
          g = word_at h 6;
          hh = word_at h 7;
        })
        round_constants w in
    wrapping_add (word_at h 0) v.a
    ∷ wrapping_add (word_at h 1) v.b
    ∷ wrapping_add (word_at h 2) v.c
    ∷ wrapping_add (word_at h 3) v.d
    ∷ wrapping_add (word_at h 4) v.e
    ∷ wrapping_add (word_at h 5) v.f
    ∷ wrapping_add (word_at h 6) v.g
    ∷ wrapping_add (word_at h 7) v.hh
    ∷ []

-- `for chunk in msg.chunks(64)`, with fuel: a message of `n` bytes has no more than `n` chunks.
unfoldable pub compress_all : ℕ → List ℕ → Bytes → List ℕ
unfolding compress
compress_all zero h msg = h
compress_all (suc fuel) h [] = h
compress_all (suc fuel) h (b ∷ bs) =
    compress_all fuel (compress h (take 64 (b ∷ bs))) (drop 64 (b ∷ bs))

unfoldable pub words_out : List ℕ → Bytes
unfolding be_bytes
words_out [] = []
words_out (w ∷ ws) = be_bytes 4 w ++ words_out ws

unfoldable pub hash : Bytes → Bytes
unfolding pad compress_all words_out
hash bytes = let msg = pad bytes in words_out (compress_all (length msg) initial_words msg)
