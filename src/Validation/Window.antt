-- ===== src/Validation/Window.antt =====
-- The interval of times that the checks of security/validation.rs accept.
use enrg.Prelude.{ok, ◌≡◌, ◌≤◌, arith, >>=-eq-ok, require_then, require-ok, refl}
use enrg.Prelude.Int.{
  ℤ, pos, negsuc, leb_ℤ, ◌≤ℤ◌, ◌+ℤ◌, ◌-ℤ◌, add_i64, sub_i64, checked_i64, pos_part, neg_part,
  i64_max,
}
use enrg.Validation.{verify_timestamp_with_skew, verify_device_clock, max_proof_age}

pub checked_i64-value : (a b : ℤ) → checked_i64 a ≡ ok b → a ≡ b
checked_i64-value (pos n) b h = ground arith
checked_i64-value (negsuc n) b h = ground arith

checked_i64-fits : (a : ℤ) → pos_part a ≤ i64_max → neg_part a ≤ i64_max → checked_i64 a ≡ ok a
checked_i64-fits (pos n) h k = ground arith
checked_i64-fits (negsuc n) h k = ground arith

-- Time `t` is at most `skew` after `now` and at most `max_proof_age` before it.
abbrev pub InWindow : ℤ → ℤ → ℤ → Type 0
InWindow now t skew = (t ≤ℤ now +ℤ skew) × (now -ℤ t ≤ℤ max_proof_age)

-- A time that the check accepts lies in the window about the clock.
pub verify_timestamp_with_skew-InWindow :
    (now t skew : ℤ) → verify_timestamp_with_skew now t skew ≡ ok tt → InWindow now t skew
unfolding verify_timestamp_with_skew
verify_timestamp_with_skew-InWindow now t skew h =
    let (latest, e, h₁) = >>=-eq-ok (add_i64 now skew) _ h in
    let (not_late, h₂) = require_then (leb_ℤ t latest) _ _ h₁ in
    let (age, e', h₃) = >>=-eq-ok (sub_i64 now t) _ h₂ in
    let not_old = require-ok (leb_ℤ age max_proof_age) _ h₃ in
    let is_latest = checked_i64-value (now +ℤ skew) latest e in
    let is_age = checked_i64-value (now -ℤ t) age e' in
    (ground (arith, is_latest, not_late), ground (arith, is_age, not_old))

-- The check of the device's clock is the check of a timestamp, with the oracle's time as the clock.
pub verify_device_clock-verify_timestamp :
    (t verified_at skew : ℤ)
    → verify_device_clock t verified_at skew ≡ verify_timestamp_with_skew verified_at t skew
unfolding verify_device_clock verify_timestamp_with_skew
verify_device_clock-verify_timestamp t verified_at skew = refl
