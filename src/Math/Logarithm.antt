-- ===== src/Math/Logarithm.antt =====
-- `ln_1p_fp` of programs/enrg-mvp/src/math.rs below 1/2: the alternating loop starts with
-- `subtract = false`, so that the first correction, u²/2, is added.
use enrg.Prelude.{
  ℕ, zero, suc, ◌+◌, ◌-◌, ◌*◌, ◌/◌, ◌≤◌, ◌<◌, ◌≡◌, inl, inr, Bool, true, false, not, ◌||◌, some,
  arith, ltb, ◌==◌, if◌then◌else◌, Bool-cases, unwrap_or, checked_div, u128_max,
}
use enrg.Math.{fp_scale, fp_mul, add_or_max, alternating_loop, ln_fuel, ln_1p_fp}
use enrg.Math.Exp.{mul_mono, div_mono}

abbrev half : ℕ
half = 500_000_000_000_000_000

-- Each power of u < 1/2 is at most half of the one before.
fp_mul-half : (t u : ℕ) → t ≤ fp_scale → u < half → 2 * fp_mul t u ≤ t
unfolding fp_mul
fp_mul-half t u ht h =
    let p : t * u ≤ fp_scale * half = mul_mono t fp_scale u half ht (omega arith) in
    let q : t * u ≤ t * half = mul_mono t t u half (omega arith) (omega arith) in ground arith

abbrev correction : ℕ → ℕ → ℕ
correction term k = unwrap_or (checked_div term k) 0

abbrev is_done : ℕ → ℕ → Bool
is_done t k = (t == 0) || ltb 200 k

alternating_loop-total :
    (f u t s k : ℕ) (b : Bool)
    → 202 ≤ f + k
    → 0 < f
    → (r : ℕ) × (alternating_loop f u t s k b ≡ some r)
unfolding alternating_loop
alternating_loop-total zero u t s k b h p = absurd (omega arith)
alternating_loop-total (suc f) u t s k b h p =
    let t' = fp_mul t u in
    let c = correction t' k in
    elim (Bool-cases (is_done c k)) [
      | inl done ↦ (s, rw done)
      | inr more ↦ rw more (
          alternating_loop-total f u t' (if b then s - c else add_or_max s c) (add_or_max k 1)
            (not b) (ground arith) (ground arith))
    ]

next_le : (t u k : ℕ) → t ≤ fp_scale → u < half → 2 ≤ k → fp_mul t u / (k + 1) ≤ t / k
next_le t u k ht h hk =
    let p = fp_mul-half t u ht h in
    let q : fp_mul t u / (k + 1) ≤ t / (k + 1) = div_mono (fp_mul t u) t (k + 1) (omega arith) in
    let r : t / (k + 1) ≤ t / k = grind arith in omega arith

div_le : (t k : ℕ) → t / k ≤ t
div_le t k = grind arith

-- What the loop has reached is never undone below `low`: before an addition the result is at
-- least `low`, and before a subtraction it exceeds `low` by the next correction.
alternating_loop-ge :
    (f u t s k low r : ℕ) (b : Bool)
    → u < half
    → t ≤ fp_scale
    → 2 ≤ k
    → low + fp_scale ≤ u128_max
    → low + (if b then fp_mul t u / k else 0) ≤ s
    → alternating_loop f u t s k b ≡ some r
    → low ≤ r
unfolding alternating_loop
alternating_loop-ge zero u t s k low r b h ht hk hl q p = cc
alternating_loop-ge (suc f) u t s k low r true h ht hk hl q p =
    let t' = fp_mul t u in
    let g = fp_mul-half t u ht h in
    ground (
      arith,
      alternating_loop-ge f u t' (s - correction t' k) (k + 1) low r false h (omega arith)
          (omega arith) hl,
    )
alternating_loop-ge (suc f) u t s k low r false h ht hk hl q p =
    let t' = fp_mul t u in
    let g = fp_mul-half t u ht h in
    let n = next_le t' u k (omega arith) h hk in
    let d = div_le t' k in
    ground (
      arith,
      alternating_loop-ge f u t' (add_or_max s (correction t' k)) (k + 1) low r true h (omega arith)
          (omega arith) hl,
    )

square_large : (u : ℕ) → 2_000_000_000 ≤ u → u < half → 4 ≤ fp_mul u u
unfolding fp_mul
square_large u low high =
    let p : 2_000_000_000 * 2_000_000_000 ≤ u * u =
      mul_mono 2_000_000_000 u 2_000_000_000 u low low in
    let q : u * u ≤ half * half = mul_mono u half u half (omega arith) (omega arith) in ground arith

first_round :
    (f u r : ℕ)
    → 2_000_000_000 ≤ u
    → u < half
    → alternating_loop (suc f) u u u 2 false ≡ some r
    → u < r
unfolding alternating_loop
first_round f u r low high p =
    let t' = fp_mul u u in
    let e = square_large u low high in
    let g = fp_mul-half u u (omega arith) high in
    let g' = fp_mul-half t' u (omega arith) high in
    ground (
      arith,
      alternating_loop-ge f u t' (add_or_max u (correction t' 2)) 3 (u + 1) r true high
          (omega arith) (omega arith) (omega arith),
    )

first_branch :
    (u r : ℕ) → u < fp_scale / 2 → alternating_loop ln_fuel u u u 2 false ≡ some r → ln_1p_fp u ≡ r
unfolding ln_1p_fp
first_branch u r high p = ground arith

-- For every u from 2,000,000,000 up to half of the fixed-point one, the computed logarithm of 1 +
-- u is above u.
pub ln_1p_fp-exceeds : (u : ℕ) → 2_000_000_000 ≤ u → u < fp_scale / 2 → u < ln_1p_fp u
ln_1p_fp-exceeds u low high =
    let (r, p) = alternating_loop-total ln_fuel u u u 2 false (omega arith) (omega arith) in
    rw (first_branch u r high p) (first_round 199 u r low (omega arith) p)
