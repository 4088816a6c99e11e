-- ===== src/Validation/Tests.antt =====
-- Runs of the checks at the edges of the accepted window.
use enrg.Prelude.{◌≡◌, refl, ok, err, code, ErrorCode}
use enrg.Prelude.Int.{pos, ◌+ℤ◌, ◌-ℤ◌}
use enrg.Validation.{verify_timestamp, verify_timestamp_with_skew}

accepts_the_oldest : verify_timestamp (pos 10_000) (pos 9_100) ≡ ok tt
unfolding verify_timestamp verify_timestamp_with_skew ◌+ℤ◌ ◌-ℤ◌
accepts_the_oldest = refl

rejects_an_older : verify_timestamp (pos 10_000) (pos 9_099) ≡ err (code ErrorCode.stale_proof)
unfolding verify_timestamp verify_timestamp_with_skew ◌+ℤ◌ ◌-ℤ◌
rejects_an_older = refl

rejects_a_later : verify_timestamp (pos 10_000) (pos 10_301) ≡ err (code ErrorCode.future_timestamp)
unfolding verify_timestamp verify_timestamp_with_skew ◌+ℤ◌ ◌-ℤ◌
rejects_a_later = refl

accepted : verify_timestamp_with_skew (pos 10_000) (pos 9_500) (pos 300) ≡ ok tt
unfolding verify_timestamp_with_skew ◌+ℤ◌ ◌-ℤ◌
accepted = refl
