-- ===== src/Math.antt =====
-- programs/enrg-mvp/src/math.rs: fixed-point arithmetic on u128 (1.0 is `fp_scale`), the
-- emission curve, the reward, and the 30-day energy windows. A `loop` of the source takes fuel.
pub mod Exp
pub mod Monotone
pub mod Reward
pub mod Logarithm
mod Tests
use enrg.Prelude.{
  ℕ, zero, suc, ◌+◌, ◌-◌, ◌*◌, ◌/◌, ◌%◌, Bool, true, false, not, ◌||◌, Option, none, some, ltb, leb,
  ◌==◌, if◌then◌else◌, map_or, unwrap_or, checked_add, checked_mul, checked_div, saturating_add,
  u64_max, u128_max, Result, ok,
}
use enrg.Prelude.Int.{ℤ, pos, leb_ℤ, eqb_ℤ, sub_i64}
use enrg.Prelude.{◌>>=◌}
use enrg.Constants.{src_basis, max_supply_atomic, initial_energy_per_src}

abbrev pub fp_scale : ℕ
fp_scale = 1_000_000_000_000_000_000

abbrev pub ln10_fp : ℕ
ln10_fp = 2_302_585_092_994_045_684

abbrev pub ln2_fp : ℕ
ln2_fp = 693_147_180_559_945_309

unfoldable pub fp_mul : ℕ → ℕ → ℕ
fp_mul a b = map_or (checked_mul u128_max a b) 0 (λ v. v / fp_scale)

-- `a.checked_add(b).unwrap_or(u128::MAX)`
abbrev pub add_or_max : ℕ → ℕ → ℕ
add_or_max a b = unwrap_or (checked_add u128_max a b) u128_max

-- The `loop` of `exp_fp`, on the variables `term`, `sum` and `k`.
unfoldable pub exp_loop : ℕ → ℕ → ℕ → ℕ → ℕ → Option ℕ
exp_loop zero x_fp term sum k = none
exp_loop (suc fuel) x_fp term sum k =
    let term' = unwrap_or (checked_div (fp_mul term x_fp) k) 0 in
    let rest = exp_loop fuel x_fp term' (add_or_max sum term') (add_or_max k 1) in
    if (term' == 0) || ltb 64 k then some sum else rest

abbrev pub exp_fuel : ℕ
exp_fuel = 65

unfoldable pub exp_fp : ℕ → ℕ
unfolding exp_loop fp_mul
exp_fp x_fp = unwrap_or (exp_loop exp_fuel x_fp fp_scale fp_scale 1) 0

-- The first `loop` of `ln_1p_fp`, on `term`, `result`, `k` and `subtract`.
unfoldable pub alternating_loop : ℕ → ℕ → ℕ → ℕ → ℕ → Bool → Option ℕ
alternating_loop zero u_fp term result k subtract = none
alternating_loop (suc fuel) u_fp term result k subtract =
    let term' = fp_mul term u_fp in
    let t = unwrap_or (checked_div term' k) 0 in
    let result' = if subtract then result - t else add_or_max result t in
    let rest = alternating_loop fuel u_fp term' result' (add_or_max k 1) (not subtract) in
    if (t == 0) || ltb 200 k then some result else rest

-- The second `loop` of `ln_1p_fp`, on `term`, `series` and `k`.
unfoldable pub series_loop : ℕ → ℕ → ℕ → ℕ → ℕ → Option ℕ
series_loop zero v term series k = none
series_loop (suc fuel) v term series k =
    let term' = fp_mul term v in
    let t = unwrap_or (checked_div term' k) 0 in
    let rest = series_loop fuel v term' (add_or_max series t) (add_or_max k 1) in
    if (t == 0) || ltb 200 k then some series else rest

abbrev pub ln_fuel : ℕ
ln_fuel = 200

-- On [0, fp_scale], where the source is called, `fp_scale - u_fp` does not underflow.
unfoldable pub ln_1p_fp : ℕ → ℕ
ln_1p_fp u_fp =
    let v = (fp_scale - u_fp) / 2 in
    if ltb u_fp (fp_scale / 2)
    then unwrap_or (alternating_loop ln_fuel u_fp u_fp u_fp 2 false) 0
    else (ln2_fp - unwrap_or (series_loop ln_fuel v v v 2) 0)

unfoldable pub log10_1p_fp : ℕ → ℕ
log10_1p_fp u_fp = map_or (checked_mul u128_max (ln_1p_fp u_fp) fp_scale) 0 (λ v. v / ln10_fp)

unfoldable pub emission_share : ℕ → ℕ
emission_share total_supply_atomic =
    map_or (checked_mul u128_max total_supply_atomic fp_scale) 0
      (λ v. unwrap_or (checked_div v max_supply_atomic) 0)

unfoldable pub emission_difficulty : ℕ → ℕ
unfolding emission_share fp_mul exp_fp
emission_difficulty total_supply_atomic =
    exp_fp (fp_mul (emission_share total_supply_atomic) ln10_fp)

unfoldable pub energy_per_src : ℕ → ℕ
unfolding emission_difficulty
energy_per_src total_supply_atomic =
    map_or (checked_mul u128_max initial_energy_per_src (emission_difficulty total_supply_atomic)) 0
      (λ v. v / fp_scale)

unfoldable pub device_difficulty_multiplier : ℕ → ℕ → ℕ
device_difficulty_multiplier device_energy_30d network_energy_30d =
    if network_energy_30d == 0
    then fp_scale
    else (let u_fp =
          if leb network_energy_30d device_energy_30d
          then fp_scale
          else map_or (checked_mul u128_max device_energy_30d fp_scale) fp_scale
              (λ v. v / network_energy_30d) in
        add_or_max fp_scale (log10_1p_fp u_fp))

unfoldable pub effective_energy_per_src : ℕ → ℕ → ℕ → ℕ
effective_energy_per_src total_supply_atomic device_energy_30d network_energy_30d =
    let base = energy_per_src total_supply_atomic in
    let multiplier = device_difficulty_multiplier device_energy_30d network_energy_30d in
    map_or (checked_mul u128_max base multiplier) 0 (λ v. v / fp_scale)

-- `as u64` keeps the low 64 bits.
unfoldable pub reward_for_energy : ℕ → ℕ → ℕ
reward_for_energy energy_wh energy_per_src =
    if energy_per_src == 0 then 0 else ((energy_wh * src_basis / energy_per_src) % (u64_max + 1))

unfoldable pub calculate_reward : ℕ → ℕ → ℕ
calculate_reward energy_wh total_supply_atomic =
    reward_for_energy energy_wh (energy_per_src total_supply_atomic)

unfoldable pub calculate_reward_dynamic : ℕ → ℕ → ℕ → ℕ → ℕ
calculate_reward_dynamic energy_wh total_supply_atomic device_energy_30d network_energy_30d =
    reward_for_energy energy_wh
      (effective_energy_per_src total_supply_atomic device_energy_30d network_energy_30d)

abbrev pub thirty_days : ℤ
thirty_days = pos (30 * 24 * 60 * 60)

-- `update_energy_window` and `update_energy_window_u128`, which differ in the word alone: `top`
-- is its maximum. `now - last_update` is checked, and is not computed when `last_update` is 0.
unfoldable pub update_window : ℕ → ℕ → ℤ → ℤ → ℕ → Result ℕ
update_window top current_energy last_update now new_energy =
    if eqb_ℤ last_update (pos 0) then ok new_energy else do
      elapsed ← sub_i64 now last_update
      ok (
          if leb_ℤ thirty_days elapsed
          then new_energy
          else saturating_add top current_energy new_energy)

unfoldable pub update_energy_window : ℕ → ℤ → ℤ → ℕ → Result ℕ
unfolding update_window
update_energy_window = update_window u64_max

unfoldable pub update_energy_window_u128 : ℕ → ℤ → ℤ → ℕ → Result ℕ
unfolding update_window
update_energy_window_u128 = update_window u128_max
