-- ===== src/Mint/History.antt =====
-- Sequences of mints: a report is used once, and the supply is what was paid out.
use enrg.Prelude.{
  WhenOn-elim, ℕ, ◌+◌, ◌≤◌, ◌<◌, ◌≡◌, ◌≢◌, refl, sym, ap, ◌∙◌, true, List, [], ◌∷◌, length, ok,
  arith, check_then,
}
use enrg.Solana.{Runtime}
use enrg.Messages.{OracleReport}
use enrg.Policy.Preamble.{in_force}
use enrg.Mint.{MintContext, MintState, Split, admit, mint_energy}
use enrg.Mint.Distribution.{amount_of}
use enrg.Mint.Admission.{admit_sound}
use enrg.Mint.Effects.{mint_energy-IsSettled, roll_month-same}

pub admitted :
    (rt : Runtime) (c : MintContext) (s : MintState) (r : OracleReport) (z : MintState × Split)
    → mint_energy rt c s r ≡ ok z
    → admit rt c s r ≡ ok tt
unfolding mint_energy
admitted rt c s r z h = (check_then (admit rt c s r) _ h).0

pub nonce_rises :
    (rt : Runtime) (c : MintContext) (s : MintState) (r : OracleReport) (z : MintState × Split)
    → mint_energy rt c s r ≡ ok z
    → s.producer.nonce < r.nonce
nonce_rises rt c s r z h =
    let authentic = (admit_sound rt c s r (admitted rt c s r z h)).0 in
    omega (arith, authentic.is_new, (roll_month-same s.producer rt.now).0)

-- After a successful mint of a report, no mint succeeds on the resulting record of the device
-- with a report of the same nonce or a lower one, whatever the other accounts, the submitter and
-- the runtime are.
pub replay_is_refused :
    (rt rt' : Runtime) (c c' : MintContext) (s s' : MintState) (r r' : OracleReport)
    (out : MintState) (split : Split) (z : MintState × Split)
    → mint_energy rt c s r ≡ ok (out, split)
    → s'.producer ≡ out.producer
    → r'.nonce ≤ r.nonce
    → mint_energy rt' c' s' r' ≢ ok z
replay_is_refused rt rt' c c' s s' r r' out split z h same old again =
    let used = (mint_energy-IsSettled rt c s r out split h).is_used in
    let rises = nonce_rises rt' c' s' r' z again in
    absurd (omega (arith, used, rises, old, ap (λ p. p.nonce) same))

-- Mints of one device, newest nonce first, each under policies that enforce the supply cap, and the
-- sum of what they paid out.
pub data Mints : MintState → List ℕ → ℕ → MintState → Type 0 where
  none_yet : {s : MintState} → Mints s [] 0 s
  then_mint :
      (rt : Runtime) (c : MintContext) (r : OracleReport) {s : MintState} {nonces : List ℕ}
      {paid : ℕ} {b out : MintState} {split : Split}
      → Mints s nonces paid b
      → (in_force c.policy_registry).enforce_supply_cap ≡ true
      → mint_energy rt c b r ≡ ok (out, split)
      → Mints s (r.nonce ∷ nonces) (paid + amount_of split) out

-- Every number of the list is less than the ones before it, and more than a first bound.
abbrev pub Descends : ℕ → ℕ → List ℕ → Type 0
Descends low high [] = low ≤ high
Descends low high (n ∷ ns) = (n ≡ high) × ((m : ℕ) × (m < n) × Descends low m ns)

pub record IsHistory (s : MintState) (nonces : List ℕ) (paid : ℕ) (out : MintState) : Type 0 where
  pub is_supply : out.vault.total_supply ≡ s.vault.total_supply + paid
  pub is_proofs : out.vault.total_proofs ≡ s.vault.total_proofs + length nonces
  pub is_descending : Descends s.producer.nonce out.producer.nonce nonces
  pub is_max : out.vault.max_supply ≡ s.vault.max_supply
  pub is_within : out.vault.total_supply ≤ out.vault.max_supply

-- From a supply within its maximum, any sequence of mints of one device, each under policies that
-- enforce the supply cap, leaves the supply within the maximum, which is unchanged; the supply
-- has risen by exactly what the mints paid out, the count of proofs by the number of mints, and
-- the nonces of the minted reports are strictly increasing from the device's nonce at the start.
pub Mints-IsHistory :
    (s : MintState) (nonces : List ℕ) (paid : ℕ) (out : MintState)
    → s.vault.total_supply ≤ s.vault.max_supply
    → Mints s nonces paid out
    → IsHistory s nonces paid out
Mints-IsHistory s nonces paid out within none_yet = record {
  is_supply = omega arith;
  is_proofs = omega arith;
  is_descending = omega arith;
  is_max = refl;
  is_within = within;
}
Mints-IsHistory s nonces paid out within
      (then_mint rt c r {b = b} {split = split} before enforced h) =
    let past = Mints-IsHistory s _ _ b within before in
    let now = mint_energy-IsSettled rt c b r out split h in
    let rises = nonce_rises rt c b r (out, split) h in
    record {
      is_supply = omega (arith, past.is_supply, now.is_supplied);
      is_proofs = omega (arith, past.is_proofs, now.is_counted);
      is_descending = (sym now.is_used, (b.producer.nonce, rises, past.is_descending));
      is_max = now.is_capped ∙ past.is_max;
      is_within =
          omega (arith, WhenOn-elim now.is_covered.1 enforced, now.is_supplied, now.is_capped);
    }
