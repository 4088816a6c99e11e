-- ===== src/Messages/Tests.antt =====
-- The theorems on messages, at one report and one vote.
use enrg.Prelude.{◌≡◌, refl, arith, []}
use enrg.Prelude.Int.{pos}
use enrg.Messages.{OracleReport}
use enrg.Messages.Injective.{IsReport}
use enrg.Messages.Separation.{kind, report, message-kind}

abbrev a_reading : OracleReport
a_reading = record {
  oracle = 5;
  device_id = 3;
  nonce = 1;
  device_timestamp = pos 10;
  verified_at = pos 20;
  energy_wh = 30;
  device_signature = [];
  oracle_signature = [];
}

in_range : IsReport a_reading
in_range = record {
  device = omega arith;
  nonce = omega arith;
  produced = omega arith;
  verified = omega arith;
  energy = omega arith;
}

message-kind_example : kind (report a_reading) ≡ kind (report a_reading)
message-kind_example = message-kind (report a_reading) (report a_reading) refl
