-- ===== src/Math/Tests.antt =====
-- Runs of programs/enrg-mvp/src/math.rs at inputs that its own tests use.
use enrg.Prelude.{◌≤◌, ◌<◌, ◌≡◌, refl, some, arith}
use enrg.Constants.{max_supply_atomic}
use enrg.Math.{
  fp_scale, ln10_fp, exp_loop, exp_fp, ln_1p_fp, emission_difficulty, energy_per_src,
  reward_for_energy, calculate_reward,
}
use enrg.Math.Exp.{exp_loop-exp_fp}
use enrg.Math.Monotone.{emission_difficulty_mono}
use enrg.Math.Logarithm.{ln_1p_fp-exceeds}

energy_per_src_start : energy_per_src 0 ≡ 1_000_000
unfolding energy_per_src
energy_per_src_start = refl

energy_per_src_quarter : energy_per_src 250_000_000_000_000_000 ≡ 1_778_279
unfolding energy_per_src
energy_per_src_quarter = refl

energy_per_src_end : energy_per_src max_supply_atomic ≡ 9_999_999
unfolding energy_per_src
energy_per_src_end = refl

calculate_reward_start : calculate_reward 10_000_000 0 ≡ 10_000_000_000
unfolding calculate_reward energy_per_src reward_for_energy
calculate_reward_start = refl

exp_loop-exp_fp_example : exp_loop 400 ln10_fp fp_scale fp_scale 1 ≡ some (exp_fp ln10_fp)
exp_loop-exp_fp_example = exp_loop-exp_fp 400 ln10_fp (omega arith)

emission_difficulty_mono_example : emission_difficulty 0 ≤ emission_difficulty max_supply_atomic
emission_difficulty_mono_example =
    emission_difficulty_mono 0 max_supply_atomic (omega arith) (omega arith)

ln_1p_fp-exceeds_example : 100_000_000_000_000_000 < ln_1p_fp 100_000_000_000_000_000
ln_1p_fp-exceeds_example = ln_1p_fp-exceeds 100_000_000_000_000_000 (omega arith) (omega arith)
