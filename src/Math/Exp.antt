-- ===== src/Math/Exp.antt =====
-- `exp_fp` of programs/enrg-mvp/src/math.rs: the loop ends, grows and is monotone.
use enrg.Prelude.{
  ℕ, zero, suc, ◌+◌, ◌*◌, ◌/◌, ◌≤◌, ◌<◌, ◌≡◌, inl, inr, Bool, ◌||◌, some, ap, arith, ltb, ◌==◌,
  Bool-cases, unwrap_or, checked_div, u128_max,
}
use enrg.Math.{fp_scale, ln10_fp, fp_mul, add_or_max, exp_loop, exp_fuel, exp_fp}

-- The next term, `fp_mul(term, x) / k`.
abbrev pub next_term : ℕ → ℕ → ℕ → ℕ
next_term x_fp term k = unwrap_or (checked_div (fp_mul term x_fp) k) 0

abbrev pub is_last : ℕ → ℕ → Bool
is_last term k = (term == 0) || ltb 64 k

pub mul_mono : (a b c d : ℕ) → a ≤ b → c ≤ d → a * c ≤ b * d
mul_mono a b c d h k = grind arith

pub div_mono : (a b d : ℕ) → a ≤ b → a / d ≤ b / d
div_mono a b d h = grind arith

pub fp_mul_mono : (a b c d : ℕ) → a ≤ b → c ≤ d → b * d ≤ u128_max → fp_mul a c ≤ fp_mul b d
unfolding fp_mul
fp_mul_mono a b c d h k fits = ground (arith, mul_mono a b c d h k)

pub exp_loop-total : (f x t s k : ℕ) → 66 ≤ f + k → 0 < f → (r : ℕ) × (exp_loop f x t s k ≡ some r)
unfolding exp_loop
exp_loop-total zero x t s k h p = absurd (omega arith)
exp_loop-total (suc f) x t s k h p = elim (Bool-cases (is_last (next_term x t k) k)) [
  | inl last ↦ (s, rw last)
  | inr more ↦ rw more (
      exp_loop-total f x (next_term x t k) (add_or_max s (next_term x t k)) (add_or_max k 1)
        (ground arith) (ground arith))
]

-- Two fuels that suffice give one result.
exp_loop_unique :
    (f g x t s k r r' : ℕ) → exp_loop f x t s k ≡ some r → exp_loop g x t s k ≡ some r' → r ≡ r'
unfolding exp_loop
exp_loop_unique zero g x t s k r r' p q = cc
exp_loop_unique (suc f) zero x t s k r r' p q = cc
exp_loop_unique (suc f) (suc g) x t s k r r' p q =
    let t' = next_term x t k in
    ground (arith, exp_loop_unique f g x t' (add_or_max s t') (add_or_max k 1) r r')

-- The loop of the exponential ends with the value of exp_fp for every argument, on the fuel that
-- exp_fp gives it and on any more.
pub exp_loop-exp_fp : (f x : ℕ) → exp_fuel ≤ f → exp_loop f x fp_scale fp_scale 1 ≡ some (exp_fp x)
unfolding exp_fp
exp_loop-exp_fp f x h =
    let (r, p) = exp_loop-total f x fp_scale fp_scale 1 (omega arith) (omega arith) in
    let (r', q) = exp_loop-total exp_fuel x fp_scale fp_scale 1 (omega arith) (omega arith) in
    let e = exp_loop_unique f exp_fuel x fp_scale fp_scale 1 r r' p q in rw q (rw p (ap some e))

pub exp_loop-grows : (f x t s k r : ℕ) → s ≤ u128_max → exp_loop f x t s k ≡ some r → s ≤ r
unfolding exp_loop
exp_loop-grows zero x t s k r h p = cc
exp_loop-grows (suc f) x t s k r h p =
    let t' = next_term x t k in
    ground (arith, exp_loop-grows f x t' (add_or_max s t') (add_or_max k 1) r)

pub exp_fp-ge-one : (x : ℕ) → fp_scale ≤ exp_fp x
exp_fp-ge-one x =
    exp_loop-grows exp_fuel x fp_scale fp_scale 1 (exp_fp x) (omega arith)
      (exp_loop-exp_fp exp_fuel x (omega arith))

-- What bounds the term after round `k`, when `x` is at most ln 10.
abbrev pub Bounded : ℕ → ℕ → Type 0
Bounded k t = (1 ≤ k) × (k ≡ 1 → t ≤ fp_scale) × (k ≡ 2 → t ≤ ln10_fp) × (t ≤ 3 * fp_scale)

pub Bounded-mul : (k x t : ℕ) → Bounded k t → x ≤ ln10_fp → t * x ≤ u128_max
Bounded-mul k x t b h =
    let p : t * x ≤ (3 * fp_scale) * ln10_fp = mul_mono t (3 * fp_scale) x ln10_fp b.3 h in
    omega arith

pub next_term-Bounded : (k x t : ℕ) → Bounded k t → x ≤ ln10_fp → Bounded (k + 1) (next_term x t k)
unfolding fp_mul
next_term-Bounded zero x t b h = absurd (omega arith)
next_term-Bounded (suc zero) x t b h =
    let p : t * x ≤ fp_scale * ln10_fp = mul_mono t fp_scale x ln10_fp (omega arith) h in
    (omega arith, λ e. omega arith, λ e. ground arith, ground arith)
next_term-Bounded (suc (suc zero)) x t b h =
    let p : t * x ≤ ln10_fp * ln10_fp = mul_mono t ln10_fp x ln10_fp (omega arith) h in
    (omega arith, λ e. omega arith, λ e. omega arith, ground arith)
next_term-Bounded (suc (suc (suc k))) x t b h =
    let p : t * x ≤ (3 * fp_scale) * ln10_fp = mul_mono t (3 * fp_scale) x ln10_fp b.3 h in
    let q : t * x / fp_scale ≤ 3 * ln10_fp = omega arith in
    let d : t * x / fp_scale / suc (suc (suc k)) ≤ ln10_fp = grind arith in
    (omega arith, λ e. omega arith, λ e. omega arith, ground arith)
