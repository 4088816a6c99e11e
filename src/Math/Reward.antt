-- ===== src/Math/Reward.antt =====
-- The reward of programs/enrg-mvp/src/math.rs: its bounds, the curve, and the effect of a device's
-- share of the network.
use enrg.Prelude.{
  ℕ, ◌+◌, ◌*◌, ◌/◌, ◌≤◌, ◌<◌, ◌≡◌, arith, map_or, checked_mul, leb, ◌==◌, if◌then◌else◌, u128_max,
}
use enrg.Constants.{max_supply_atomic, src_basis}
use enrg.Math.{
  fp_scale, ln10_fp, ln_1p_fp, log10_1p_fp, energy_per_src, device_difficulty_multiplier,
  add_or_max, effective_energy_per_src, reward_for_energy, calculate_reward,
  calculate_reward_dynamic,
}
use enrg.Math.Exp.{mul_mono}
use enrg.Math.Monotone.{scaled_fits, energy_per_src_bounds, energy_per_src_mono}

-- The largest energy whose reward fits 64 bits at the initial difficulty.
abbrev pub max_reward_energy : ℕ
max_reward_energy = 18_446_744_073_709_551

div_anti : (n a b : ℕ) → 0 < a → a ≤ b → n / b ≤ n / a
div_anti n a b p h = grind arith

-- With a difficulty of 1 MWh or more `as u64` loses nothing.
reward_for_energy_lem :
    (e p : ℕ) → e ≤ max_reward_energy → 1_000_000 ≤ p → reward_for_energy e p ≡ e * src_basis / p
unfolding reward_for_energy
reward_for_energy_lem e p h q =
    let b : e * src_basis / p ≤ e * src_basis / 1_000_000 =
      div_anti (e * src_basis) 1_000_000 p (omega arith) q in
    ground arith

pub reward_for_energy-anti :
    (e p q : ℕ)
    → e ≤ max_reward_energy
    → 1_000_000 ≤ p
    → p ≤ q
    → reward_for_energy e q ≤ reward_for_energy e p
reward_for_energy-anti e p q h hp le =
    rw (reward_for_energy_lem e p h hp) (
      rw (reward_for_energy_lem e q h (omega arith))
        (div_anti (e * src_basis) p q (omega arith) le))

-- For an energy whose reward fits a word at the first difficulty and a supply up to the cap, a
-- watt-hour earns between 100 and 1000 atomic units.
pub calculate_reward_bounds :
    (e s : ℕ)
    → e ≤ max_reward_energy
    → s ≤ max_supply_atomic
    → (100 * e ≤ calculate_reward e s) × (calculate_reward e s ≤ 1000 * e)
unfolding calculate_reward
calculate_reward_bounds e s h hs =
    let (low, high) = energy_per_src_bounds s hs in
    rw (reward_for_energy_lem e (energy_per_src s) h low) (between (energy_per_src s) low high)
  where
    between :
        (p : ℕ)
        → 1_000_000 ≤ p
        → p ≤ 9_999_999
        → (100 * e ≤ e * src_basis / p) × (e * src_basis / p ≤ 1000 * e)
    between p low high =
        let a : e * src_basis / 9_999_999 ≤ e * src_basis / p =
          div_anti (e * src_basis) p 9_999_999 (omega arith) high in
        let b : e * src_basis / p ≤ e * src_basis / 1_000_000 =
          div_anti (e * src_basis) 1_000_000 p (omega arith) low in
        (omega arith, omega arith)

-- For an energy whose reward fits a word at the first difficulty, and two supplies up to the cap,
-- the same energy earns no more at the larger supply.
pub calculate_reward-anti :
    (e s t : ℕ)
    → e ≤ max_reward_energy
    → s ≤ t
    → t ≤ max_supply_atomic
    → calculate_reward e t ≤ calculate_reward e s
unfolding calculate_reward
calculate_reward-anti e s t h le ht =
    reward_for_energy-anti e (energy_per_src s) (energy_per_src t) h
      (energy_per_src_bounds s (omega arith)).0 (energy_per_src_mono s t le ht)

log10_1p_fp-le : (u : ℕ) → log10_1p_fp u ≤ u128_max / ln10_fp
unfolding log10_1p_fp
log10_1p_fp-le u = scaled (ln_1p_fp u)
  where
    scaled :
        (l : ℕ) → map_or (checked_mul u128_max l fp_scale) 0 (λ v. v / ln10_fp) ≤ u128_max / ln10_fp
    scaled l = ground arith

-- The multiplier of a device is at least 1.0.
pub device_difficulty_multiplier_bounds :
    (d n : ℕ)
    → (fp_scale ≤ device_difficulty_multiplier d n)
      × (device_difficulty_multiplier d n ≤ fp_scale + u128_max / ln10_fp)
unfolding device_difficulty_multiplier
device_difficulty_multiplier_bounds d n =
    let u =
      if leb n d
      then fp_scale
      else map_or (checked_mul u128_max d fp_scale) fp_scale (λ v. v / n) in
    at (log10_1p_fp u) (log10_1p_fp-le u)
  where
    at :
        (l : ℕ)
        → l ≤ u128_max / ln10_fp
        → (fp_scale ≤ (if n == 0 then fp_scale else add_or_max fp_scale l))
          × ((if n == 0 then fp_scale else add_or_max fp_scale l) ≤ fp_scale + u128_max / ln10_fp)
    at l h = ground arith

pub effective_energy_per_src-ge :
    (s d n : ℕ) → s ≤ max_supply_atomic → energy_per_src s ≤ effective_energy_per_src s d n
unfolding effective_energy_per_src
effective_energy_per_src-ge s d n h =
    at (energy_per_src s) (device_difficulty_multiplier d n) (energy_per_src_bounds s h).1
      (device_difficulty_multiplier_bounds d n)
  where
    at :
        (b m : ℕ)
        → b ≤ 9_999_999
        → (fp_scale ≤ m) × (m ≤ fp_scale + u128_max / ln10_fp)
        → b ≤ map_or (checked_mul u128_max b m) 0 (λ v. v / fp_scale)
    at b m hb (low, high) =
        let p : b * m ≤ 9_999_999 * (fp_scale + u128_max / ln10_fp) =
          mul_mono b 9_999_999 m (fp_scale + u128_max / ln10_fp) hb high in
        let q : b * fp_scale ≤ b * m = mul_mono b b fp_scale m (omega arith) low in
        rw (scaled_fits b m fp_scale (omega arith)) (omega arith)

-- For an energy whose reward fits a word at the first difficulty and a supply up to the cap, the
-- reward with the per-device difficulty is at most that without, for any windows of energy.
pub calculate_reward_dynamic-le :
    (e s d n : ℕ)
    → e ≤ max_reward_energy
    → s ≤ max_supply_atomic
    → calculate_reward_dynamic e s d n ≤ calculate_reward e s
unfolding calculate_reward_dynamic calculate_reward
calculate_reward_dynamic-le e s d n h hs =
    reward_for_energy-anti e (energy_per_src s) (effective_energy_per_src s d n) h
      (energy_per_src_bounds s hs).0 (effective_energy_per_src-ge s d n hs)
