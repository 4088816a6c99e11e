-- ===== src/Vesting/Release.antt =====
-- The schedule of the release: what is vested grows to the whole amount, and never past it.
use enrg.Prelude.{
  ℕ, ◌+◌, ◌*◌, ◌/◌, ◌%◌, ◌≤◌, if◌then◌else◌, ◌≡◌, refl, ap, sym, Bool, true, false, Result, ok,
  arith, u64_max, >>=-eq-ok, ok-injective, ◌⊎◌, inl, inr, ◌∙◌, Bool-cases, ◌>>=◌,
}
use enrg.Prelude.Int.{
  ℤ, pos, ◌≤ℤ◌, leb_ℤ, ltb_ℤ, pos_part, saturating_sub_i64, sub_i64, clamp_i64, ◌-ℤ◌, int_laws,
}
use enrg.Math.Exp.{mul_mono, div_mono}
use enrg.Validation.Window.{checked_i64-value}
use enrg.Vesting.{vested_at, released, min_ℤ, vested_since}

share_le : (a b c : ℕ) → b ≤ c → a * b / c ≤ a
share_le a b c h = let p : a * b ≤ a * c = mul_mono a a b c (omega arith) h in grind arith

share_mono : (a b b' c : ℕ) → b ≤ b' → a * b / c ≤ a * b' / c
share_mono a b b' c h = div_mono (a * b) (a * b') c (mul_mono a a b b' (omega arith) h)

wrap_small : (n : ℕ) → n ≤ u64_max → n % (u64_max + 1) ≡ n
wrap_small n h = omega arith

-- Within the words, nothing is cut off.
released-value :
    (total : ℕ) (elapsed release : ℤ)
    → total ≤ u64_max
    → (released total elapsed release ≡ total * pos_part (min_ℤ elapsed release) / pos_part release)
      × (released total elapsed release ≤ total)
unfolding released
released-value total elapsed release h =
    let part : pos_part (min_ℤ elapsed release) ≤ pos_part release = ground arith in
    let small = share_le total (pos_part (min_ℤ elapsed release)) (pos_part release) part in
    let whole =
      wrap_small (total * pos_part (min_ℤ elapsed release) / pos_part release)
        (omega (arith, small, h)) in
    (whole, omega (arith, whole, small))

released_mono :
    (total : ℕ) (s t release : ℤ)
    → total ≤ u64_max
    → s ≤ℤ t
    → released total s release ≤ released total t release
released_mono total s t release h k =
    let part : pos_part (min_ℤ s release) ≤ pos_part (min_ℤ t release) = ground arith in
    let more = share_mono total _ _ (pos_part release) part in
    omega (arith, more, (released-value total s release h).0, (released-value total t release h).0)

-- What is vested is nothing, or what is released after the cliff.
vested_since-cases :
    (total v : ℕ) (since cliff release : ℤ)
    → vested_since total since cliff release ≡ ok v
    → ((ltb_ℤ since cliff ≡ true) × (v ≡ 0))
      ⊎ ((ltb_ℤ since cliff ≡ false) × (v ≡ released total (since -ℤ cliff) release))
unfolding vested_since
vested_since-cases total v since cliff release h = elim (Bool-cases (ltb_ℤ since cliff)) [
  | inl early ↦ inl (early, ground arith)
  | inr late ↦
      let elapsed_ok : (sub_i64 since cliff >>= λ elapsed. ok (released total elapsed release))
          ≡ ok v =
        ground (arith, h, late) in
      let (elapsed, e, e') = >>=-eq-ok (sub_i64 since cliff) _ elapsed_ok in
      let same = checked_i64-value (since -ℤ cliff) elapsed e in
      inr (late, ok-injective v _ (sym e' ∙ ap (λ z. ok (released total z release)) (sym same)))
]

vested_since-le :
    (total v : ℕ) (since cliff release : ℤ)
    → total ≤ u64_max
    → vested_since total since cliff release ≡ ok v
    → v ≤ total
vested_since-le total v since cliff release h e =
    elim (vested_since-cases total v since cliff release e) [
      | inl (_, nothing) ↦ omega (arith, nothing)
      | inr (_, some_released) ↦
          omega (arith, some_released, (released-value total (since -ℤ cliff) release h).1)
    ]

vested_since_mono :
    (total v w : ℕ) (since later cliff release : ℤ)
    → total ≤ u64_max
    → since ≤ℤ later
    → vested_since total since cliff release ≡ ok v
    → vested_since total later cliff release ≡ ok w
    → v ≤ w
vested_since_mono total v w since later cliff release h k e e' =
    elim (vested_since-cases total v since cliff release e) [
      | inl (_, nothing) ↦ omega (arith, nothing)
      | inr (late, now_released) ↦ elim (vested_since-cases total w later cliff release e') [
        | inl (early, _) ↦ absurd (ground (arith, late, early, k))
        | inr (_, later_released) ↦
            let more : since -ℤ cliff ≤ℤ later -ℤ cliff = grind int_laws in
            omega (
              arith,
              now_released,
              later_released,
              released_mono total (since -ℤ cliff) (later -ℤ cliff) release h more,
            )
      ]
    ]

zero_or :
    (b : Bool) (m : Result ℕ) (v : ℕ)
    → (if b then ok 0 else m) ≡ ok v
    → ((b ≡ true) × (v ≡ 0)) ⊎ ((b ≡ false) × (m ≡ ok v))
zero_or true m v h = inl (refl, ground arith)
zero_or false m v h = inr (refl, h)

clamp_i64-mono : (a b : ℤ) → a ≤ℤ b → clamp_i64 a ≤ℤ clamp_i64 b
clamp_i64-mono a b h = ground arith

-- What is vested is never more than the whole amount.
pub vested_at-le :
    (total v : ℕ) (start cliff release now : ℤ)
    → total ≤ u64_max
    → vested_at total start cliff release now ≡ ok v
    → v ≤ total
unfolding vested_at
vested_at-le total v start cliff release now h e =
    let since = saturating_sub_i64 now start in
    elim (zero_or (leb_ℤ release (pos 0)) (vested_since total since cliff release) v e) [
      | inl (_, nothing) ↦ omega (arith, nothing)
      | inr (_, e') ↦ vested_since-le total v since cliff release h e'
    ]

-- For an amount that fits a word, when both values are computed without an overflow, what is
-- vested at a time is at most what is vested at any later time.
pub vested_at_mono :
    (total v w : ℕ) (start cliff release now later : ℤ)
    → total ≤ u64_max
    → now ≤ℤ later
    → vested_at total start cliff release now ≡ ok v
    → vested_at total start cliff release later ≡ ok w
    → v ≤ w
unfolding vested_at
vested_at_mono total v w start cliff release now later h k e e' =
    let since = saturating_sub_i64 now start in
    let then_since = saturating_sub_i64 later start in
    let b = leb_ℤ release (pos 0) in
    let more : now -ℤ start ≤ℤ later -ℤ start = grind int_laws in
    let order = clamp_i64-mono (now -ℤ start) (later -ℤ start) more in
    elim (zero_or b (vested_since total since cliff release) v e) [
      | inl (_, nothing) ↦ omega (arith, nothing)
      | inr (on, now_vested) ↦ elim (zero_or b (vested_since total then_since cliff release) w e') [
        | inl (off, _) ↦ absurd (cc (on, off))
        | inr (_, then_vested) ↦
            vested_since_mono total v w since then_since cliff release h order now_vested
              then_vested
      ]
    ]
