-- ===== src/Messages/Injective.antt =====
-- A signed message determines the values that it was built from.
use enrg.Prelude.{
  ℕ, zero, suc, ◌*◌, ◌/◌, ◌^◌, ◌≤◌, ◌<◌, ◌≡◌, refl, sym, ap, ◌∙◌, List, [], ◌∷◌, ◌++◌, arith,
  length, u64_max,
}
use enrg.Prelude.Int.{ℤ, pos, negsuc, i64_max}
use mathlib.Core.Path.{ap₂}
use mathlib.Core.List.{append-nil}
use native.Mathlib.Nat.{pow-suc, mul_comm}
use enrg.Solana.{Pubkey, Bytes}
use enrg.Messages.{
  le_bytes, i64_bits, to_bytes, u64_bytes, i64_bytes, device_claim_message, device_rotate_message,
  oracle_attest_message, OracleReport, oracle_message_to_sign, device_claim_message_prefix,
  device_rotate_message_prefix, oracle_attest_prefix, manifest_sign_message_prefix,
  manifest_sign_message, poi_commit_prefix, poi_commit_message,
}

pub length-le_bytes : (n x : ℕ) → length (le_bytes n x) ≡ n
unfolding le_bytes
length-le_bytes zero x = refl
length-le_bytes (suc n) x = ap suc (length-le_bytes n (x / 256))

pow_suc : (n : ℕ) → 256 ^ suc n ≡ 256 * 256 ^ n
pow_suc n = simp (pow-suc, mul_comm)

cons_parts {ℓ} : {A : Type ℓ} {a b : A} {xs ys : List A} → a ∷ xs ≡ b ∷ ys → (a ≡ b) × (xs ≡ ys)
cons_parts e = (cc, cc)

le_bytes-injective : (n x y : ℕ) → x < 256 ^ n → y < 256 ^ n → le_bytes n x ≡ le_bytes n y → x ≡ y
unfolding le_bytes
le_bytes-injective zero x y hx hy e = omega arith
le_bytes-injective (suc n) x y hx hy e =
    let (low, high) = cons_parts e in
    let p = pow_suc n in
    let q = le_bytes-injective n (x / 256) (y / 256) (omega arith) (omega arith) high in omega arith

-- Equal concatenations whose first parts are equally long have equal parts.
pub append_cancel {ℓ} :
    {A : Type ℓ} (xs bs ys ds : List A)
    → length xs ≡ length ys
    → xs ++ bs ≡ ys ++ ds
    → (xs ≡ ys) × (bs ≡ ds)
append_cancel [] bs [] ds h e = (refl, e)
append_cancel [] bs (c ∷ ys) ds h e = absurd (omega arith)
append_cancel (a ∷ xs) bs [] ds h e = absurd (omega arith)
append_cancel (a ∷ xs) bs (c ∷ ys) ds h e =
    let (p, q) = cons_parts e in
    let (r, s) = append_cancel xs bs ys ds (omega arith) q in (ap₂ (λ u v. u ∷ v) p r, s)

-- The ranges of the words.
abbrev pub IsKey : Pubkey → Type 0
IsKey k = k < 256 ^ 32

abbrev pub IsU64 : ℕ → Type 0
IsU64 n = n ≤ u64_max

abbrev pub IsI64 : ℤ → Type 0
IsI64 (pos n) = n ≤ i64_max
IsI64 (negsuc n) = n ≤ i64_max

i64_bits-injective : (s t : ℤ) → IsI64 s → IsI64 t → i64_bits s ≡ i64_bits t → s ≡ t
i64_bits-injective (pos m) (pos n) hs ht e = ap pos e
i64_bits-injective (pos m) (negsuc n) hs ht e = absurd (omega arith)
i64_bits-injective (negsuc m) (pos n) hs ht e = absurd (omega arith)
i64_bits-injective (negsuc m) (negsuc n) hs ht e = ap negsuc (omega arith)

i64_bits-lt : (t : ℤ) → IsI64 t → i64_bits t < 256 ^ 8
i64_bits-lt (pos n) h = omega arith
i64_bits-lt (negsuc n) h = omega arith

-- A field at the head of a message can be read off, and what follows it.
word_field :
    (n x y : ℕ) (r s : Bytes)
    → x < 256 ^ n
    → y < 256 ^ n
    → le_bytes n x ++ r ≡ le_bytes n y ++ s
    → (x ≡ y) × (r ≡ s)
word_field n x y r s hx hy e =
    let (p, q) =
      append_cancel (le_bytes n x) r (le_bytes n y) s
        (length-le_bytes n x ∙ sym (length-le_bytes n y)) e in
    (le_bytes-injective n x y hx hy p, q)

key_field :
    (j k : Pubkey) (r s : Bytes)
    → IsKey j
    → IsKey k
    → to_bytes j ++ r ≡ to_bytes k ++ s
    → (j ≡ k) × (r ≡ s)
unfolding to_bytes
key_field j k r s = word_field 32 j k r s

u64_field :
    (m n : ℕ) (r s : Bytes)
    → IsU64 m
    → IsU64 n
    → u64_bytes m ++ r ≡ u64_bytes n ++ s
    → (m ≡ n) × (r ≡ s)
unfolding u64_bytes
u64_field m n r s hm hn = word_field 8 m n r s (omega arith) (omega arith)

i64_field :
    (a b : ℤ) (r s : Bytes)
    → IsI64 a
    → IsI64 b
    → i64_bytes a ++ r ≡ i64_bytes b ++ s
    → (a ≡ b) × (r ≡ s)
unfolding i64_bytes
i64_field a b r s ha hb e =
    let (p, q) =
      word_field 8 (i64_bits a) (i64_bits b) r s (i64_bits-lt a ha) (i64_bits-lt b hb) e in
    (i64_bits-injective a b ha hb p, q)

i64_last : (a b : ℤ) → IsI64 a → IsI64 b → i64_bytes a ≡ i64_bytes b → a ≡ b
i64_last a b ha hb e = (i64_field a b [] [] ha hb (rw append-nil (rw append-nil e))).0

u64_last : (m n : ℕ) → IsU64 m → IsU64 n → u64_bytes m ≡ u64_bytes n → m ≡ n
u64_last m n hm hn e = (u64_field m n [] [] hm hn (rw append-nil (rw append-nil e))).0

-- What follows a prefix that both messages begin with.
after_prefix : (p r s : Bytes) → p ++ r ≡ p ++ s → r ≡ s
after_prefix p r s e = (append_cancel p r p s refl e).1

-- Two claim messages with keys, nonces and times in range are equal only if they are of the same
-- device, owner, nonce and time.
pub device_claim_message-injective :
    (d d' o o' : Pubkey) (n n' : ℕ) (t t' : ℤ)
    → IsKey d
    → IsKey d'
    → IsKey o
    → IsKey o'
    → IsU64 n
    → IsU64 n'
    → IsI64 t
    → IsI64 t'
    → device_claim_message d o n t ≡ device_claim_message d' o' n' t'
    → (d ≡ d') × (o ≡ o') × (n ≡ n') × (t ≡ t')
unfolding device_claim_message
device_claim_message-injective d d' o o' n n' t t' hd hd' ho ho' hn hn' ht ht' e =
    let e₁ = after_prefix device_claim_message_prefix _ _ e in
    let (p, e₂) = key_field d d' _ _ hd hd' e₁ in
    let (q, e₃) = key_field o o' _ _ ho ho' e₂ in
    let (r, e₄) = u64_field n n' _ _ hn hn' e₃ in (p, q, r, i64_last t t' ht ht' e₄)

-- The same for a key rotation.
pub device_rotate_message-injective :
    (d d' o o' : Pubkey) (n n' : ℕ) (t t' : ℤ)
    → IsKey d
    → IsKey d'
    → IsKey o
    → IsKey o'
    → IsU64 n
    → IsU64 n'
    → IsI64 t
    → IsI64 t'
    → device_rotate_message d o n t ≡ device_rotate_message d' o' n' t'
    → (d ≡ d') × (o ≡ o') × (n ≡ n') × (t ≡ t')
unfolding device_rotate_message
device_rotate_message-injective d d' o o' n n' t t' hd hd' ho ho' hn hn' ht ht' e =
    let e₁ = after_prefix device_rotate_message_prefix _ _ e in
    let (p, e₂) = key_field d d' _ _ hd hd' e₁ in
    let (q, e₃) = key_field o o' _ _ ho ho' e₂ in
    let (r, e₄) = u64_field n n' _ _ hn hn' e₃ in (p, q, r, i64_last t t' ht ht' e₄)

-- An oracle's vote is bound to the device, the nonce and the hash.
pub oracle_attest_message-injective :
    (d d' : Pubkey) (n n' : ℕ) (h h' : Bytes)
    → IsKey d
    → IsKey d'
    → IsU64 n
    → IsU64 n'
    → oracle_attest_message d n h ≡ oracle_attest_message d' n' h'
    → (d ≡ d') × (n ≡ n') × (h ≡ h')
unfolding oracle_attest_message
oracle_attest_message-injective d d' n n' h h' hd hd' hn hn' e =
    let e₁ = after_prefix oracle_attest_prefix _ _ e in
    let (p, e₂) = key_field d d' _ _ hd hd' e₁ in
    let (q, e₃) = u64_field n n' _ _ hn hn' e₂ in (p, q, e₃)

-- The words of a report are in range.
pub record IsReport (r : OracleReport) : Type 0 where
  pub device : IsKey r.device_id
  pub nonce : IsU64 r.nonce
  pub produced : IsI64 r.device_timestamp
  pub verified : IsI64 r.verified_at
  pub energy : IsU64 r.energy_wh

-- Two reports whose words are in range and whose oracle messages are equal have the same device,
-- nonce, times and energy.
pub oracle_message_to_sign-injective :
    (r s : OracleReport)
    → IsReport r
    → IsReport s
    → oracle_message_to_sign r ≡ oracle_message_to_sign s
    → (r.device_id ≡ s.device_id)
      × (r.nonce ≡ s.nonce)
      × (r.device_timestamp ≡ s.device_timestamp)
      × (r.verified_at ≡ s.verified_at)
      × (r.energy_wh ≡ s.energy_wh)
unfolding oracle_message_to_sign
oracle_message_to_sign-injective r s h k e =
    let (p, e₁) = key_field r.device_id s.device_id _ _ h.device k.device e in
    let (q, e₂) = u64_field r.nonce s.nonce _ _ h.nonce k.nonce e₁ in
    let (u, e₃) = i64_field r.device_timestamp s.device_timestamp _ _ h.produced k.produced e₂ in
    let (v, e₄) = i64_field r.verified_at s.verified_at _ _ h.verified k.verified e₃ in
    (p, q, u, v, u64_last r.energy_wh s.energy_wh h.energy k.energy e₄)

-- A publisher's message is bound to the identifier, the content and the version.
pub manifest_sign_message-injective :
    (i j c d : Bytes) (m n : ℕ)
    → length i ≡ 16
    → length j ≡ 16
    → length c ≡ 32
    → length d ≡ 32
    → manifest_sign_message i c m ≡ manifest_sign_message j d n
    → (i ≡ j) × (c ≡ d) × (m ≡ n)
unfolding manifest_sign_message
manifest_sign_message-injective i j c d m n hi hj hc hd e =
    let e₁ = after_prefix manifest_sign_message_prefix _ _ e in
    let (p, e₂) = append_cancel i (c ++ (m ∷ [])) j (d ++ (n ∷ [])) (hi ∙ sym hj) e₁ in
    let (q, e₃) = append_cancel c (m ∷ []) d (n ∷ []) (hc ∙ sym hd) e₂ in (p, q, (cons_parts e₃).0)

-- A commitment is bound to the round, the device and the digest.
pub poi_commit_message-injective :
    (r s : ℕ) (d e : Pubkey) (g h : Bytes)
    → IsU64 r
    → IsU64 s
    → IsKey d
    → IsKey e
    → poi_commit_message r d g ≡ poi_commit_message s e h
    → (r ≡ s) × (d ≡ e) × (g ≡ h)
unfolding poi_commit_message
poi_commit_message-injective r s d e g h hr hs hd he same =
    let e₁ = after_prefix poi_commit_prefix _ _ same in
    let (p, e₂) = u64_field r s _ _ hr hs e₁ in
    let (q, e₃) = key_field d e _ _ hd he e₂ in (p, q, e₃)
