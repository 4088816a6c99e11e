-- ===== src/Math/Monotone.antt =====
-- `exp_fp` of programs/enrg-mvp/src/math.rs grows with its argument on [0, ln 10]; so do the
-- emission difficulty and the energy per SRC with the supply.
use enrg.Prelude.{ℕ, zero, suc, ◌+◌, ◌*◌, ◌/◌, ◌≤◌, ◌≡◌, some, arith, u128_max, map_or, checked_mul}
use enrg.Constants.{max_supply_atomic, initial_energy_per_src}
use enrg.Math.{
  fp_scale, ln10_fp, fp_mul, add_or_max, exp_loop, exp_fuel, exp_fp, emission_share,
  emission_difficulty, energy_per_src,
}
use enrg.Math.Exp.{
  next_term, div_mono, fp_mul_mono, exp_loop-exp_fp, exp_loop-grows, exp_fp-ge-one, Bounded,
  Bounded-mul, next_term-Bounded,
}

next_term_mono :
    (k x y t t' : ℕ) → x ≤ y → t ≤ t' → t' * y ≤ u128_max → next_term x t k ≤ next_term y t' k
next_term_mono k x y t t' h q fits =
    ground (arith, div_mono (fp_mul t x) (fp_mul t' y) k (fp_mul_mono t t' x y q h fits))

exp_loop_mono :
    (f x y t t' s s' k r r' : ℕ)
    → x ≤ y
    → y ≤ ln10_fp
    → t ≤ t'
    → Bounded k t'
    → s ≤ s'
    → s' ≤ u128_max
    → exp_loop f x t s k ≡ some r
    → exp_loop f y t' s' k ≡ some r'
    → r ≤ r'
unfolding exp_loop
exp_loop_mono zero x y t t' s s' k r r' h hy q b le fits p p' = cc
exp_loop_mono (suc f) x y t t' s s' k r r' h hy q b le fits p p' =
    let u = next_term x t k in
    let u' = next_term y t' k in
    let m : u ≤ u' = next_term_mono k x y t t' h q (Bounded-mul k y t' b hy) in
    let z =
      exp_loop_mono f x y u u' (add_or_max s u) (add_or_max s' u') (k + 1) r r' h hy m
        (next_term-Bounded k y t' b hy) in
    ground (arith, z, exp_loop-grows f y u' (add_or_max s' u') (k + 1) r')

pub exp_fp_mono : (x y : ℕ) → x ≤ y → y ≤ ln10_fp → exp_fp x ≤ exp_fp y
exp_fp_mono x y h hy =
    exp_loop_mono exp_fuel x y fp_scale fp_scale fp_scale fp_scale 1 (exp_fp x) (exp_fp y) h hy
      (omega arith) (omega arith) (omega arith) (omega arith)
      (exp_loop-exp_fp exp_fuel x (omega arith)) (exp_loop-exp_fp exp_fuel y (omega arith))

-- Up to the whole supply the share is the exact quotient, at most 1.0.
emission_share_lem : (s : ℕ) → s ≤ max_supply_atomic → emission_share s ≡ s
unfolding emission_share
emission_share_lem s h = ground arith

-- ln 10 times the share.
exponent : ℕ → ℕ
exponent s = fp_mul (emission_share s) ln10_fp

exponent_mono : (s t : ℕ) → s ≤ t → t ≤ max_supply_atomic → exponent s ≤ exponent t
unfolding exponent
exponent_mono s t h ht =
    rw (emission_share_lem s (omega arith))
      (rw (emission_share_lem t ht) (fp_mul_mono s t ln10_fp ln10_fp h (omega arith) (omega arith)))

exponent-le : (s : ℕ) → s ≤ max_supply_atomic → exponent s ≤ ln10_fp
unfolding exponent fp_mul
exponent-le s h = rw (emission_share_lem s h) (ground arith)

-- For two supplies up to the cap, the larger one never has the lower difficulty.
pub emission_difficulty_mono :
    (s t : ℕ) → s ≤ t → t ≤ max_supply_atomic → emission_difficulty s ≤ emission_difficulty t
unfolding emission_difficulty exponent
emission_difficulty_mono s t h ht =
    exp_fp_mono (exponent s) (exponent t) (exponent_mono s t h ht) (exponent-le t ht)

difficulty_end : emission_difficulty max_supply_atomic ≤ 10 * fp_scale
unfolding emission_difficulty
difficulty_end = omega arith

emission_difficulty-ge-one : (s : ℕ) → fp_scale ≤ emission_difficulty s
unfolding emission_difficulty exponent
emission_difficulty-ge-one s = exp_fp-ge-one (exponent s)

pub emission_difficulty_bounds :
    (s : ℕ)
    → s ≤ max_supply_atomic
    → (fp_scale ≤ emission_difficulty s) × (emission_difficulty s ≤ 10 * fp_scale)
emission_difficulty_bounds s h = (
  emission_difficulty-ge-one s,
  omega (arith, emission_difficulty_mono s max_supply_atomic h (omega arith), difficulty_end),
)

-- A product that fits is divided as it is.
pub scaled_fits :
    (a b d : ℕ) → a * b ≤ u128_max → map_or (checked_mul u128_max a b) 0 (λ v. v / d) ≡ a * b / d
scaled_fits a b d h = ground arith

energy_per_src_lem :
    (s : ℕ)
    → s ≤ max_supply_atomic
    → energy_per_src s ≡ initial_energy_per_src * emission_difficulty s / fp_scale
unfolding energy_per_src
energy_per_src_lem s h =
    let (low, high) = emission_difficulty_bounds s h in
    scaled_fits initial_energy_per_src (emission_difficulty s) fp_scale
      (fits (emission_difficulty s) high)
  where
    fits : (d : ℕ) → d ≤ 10 * fp_scale → initial_energy_per_src * d ≤ u128_max
    fits d h = omega arith

-- Up to the whole supply, a larger supply never needs less energy for one SRC.
pub energy_per_src_mono :
    (s t : ℕ) → s ≤ t → t ≤ max_supply_atomic → energy_per_src s ≤ energy_per_src t
energy_per_src_mono s t h ht =
    rw (energy_per_src_lem s (omega arith))
      (rw (energy_per_src_lem t ht) (omega (arith, emission_difficulty_mono s t h ht)))

-- For a supply up to the cap, one token takes between 1,000,000 and 9,999,999 watt-hours.
pub energy_per_src_bounds :
    (s : ℕ)
    → s ≤ max_supply_atomic
    → (1_000_000 ≤ energy_per_src s) × (energy_per_src s ≤ 9_999_999)
energy_per_src_bounds s h = (
  rw (energy_per_src_lem s h) (omega (arith, emission_difficulty_bounds s h)),
  omega (arith, energy_per_src_mono s max_supply_atomic h (omega arith), last),
)
  where
    last : energy_per_src max_supply_atomic ≤ 9_999_999
    last = unfold energy_per_src in omega arith
