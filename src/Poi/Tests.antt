-- ===== src/Poi/Tests.antt =====
-- A contribution of a device to a round.
use enrg.Prelude.{◌≡◌, refl, Option, none, ok}
use enrg.Prelude.Int.{pos}
use enrg.Constants.{instructions_sysvar_id}
use enrg.Solana.{all_zero, Runtime}
use enrg.Samples.{a_runtime, repeat, signed_by}
use enrg.Messages.{poi_commit_message}
use enrg.Ed25519.Sound.{build_data}
use enrg.Poi.{PoiCommitment, commit_contribution}
use enrg.Poi.Committed.{IsCommitted, commit_contribution-IsCommitted}

abbrev committing : Runtime
committing = record a_runtime {
  instruction_back = λ n. signed_by 3 (repeat 64 1) (poi_commit_message 9 3 (repeat 32 6));
}

abbrev a_commitment : PoiCommitment
a_commitment = record {
  device_id = 3;
  round = 9;
  digest = repeat 32 6;
  signature = repeat 64 1;
  committed_at = pos 1_000_000;
}

commits :
    commit_contribution committing none 3 instructions_sysvar_id 9 (repeat 32 6) (repeat 64 1)
    ≡ ok a_commitment
unfolding commit_contribution all_zero build_data
commits = refl

commit_contribution-IsCommitted_example :
    IsCommitted committing a_commitment
    × (◌≡◌ {A = Option PoiCommitment} none none)
    × (a_commitment.device_id ≡ 3)
    × (a_commitment.round ≡ 9)
    × (a_commitment.digest ≡ repeat 32 6)
commit_contribution-IsCommitted_example =
    commit_contribution-IsCommitted committing none 3 instructions_sysvar_id 9 (repeat 32 6)
      (repeat 64 1) a_commitment commits
