-- ===== src/Mint/Month.antt =====
-- The monthly limit of a device's tier.
use enrg.Prelude.{
  WhenOn-elim, ℕ, ◌+◌, ◌≤◌, ◌≡◌, ap, ◌∙◌, arith, true, some, ok, check_then, leb, false, u64_max,
  checked_add, map_or,
}
use enrg.Prelude.Int.{ℤ}
use enrg.Solana.{Runtime}
use enrg.Messages.{OracleReport}
use enrg.Device.{EnergyProducer, DeviceTier, monthly_limit_wh, allows_increment, roll_month}
use enrg.Policy.Preamble.{in_force}
use enrg.Mint.{MintContext, MintState, Split, admit, credit_producer, mint_energy}
use enrg.Mint.Admission.{admit_sound}
use enrg.Mint.Effects.{mint_energy-credited}

-- What the tier lets through stays within its limit.
allowed_limit :
    (tier : DeviceTier) (month e limit : ℕ)
    → monthly_limit_wh tier ≡ some limit
    → allows_increment tier month e ≡ true
    → month + e ≤ limit
unfolding allows_increment
allowed_limit tier month e limit has h =
    let within : map_or (some limit) true
          (λ l. map_or (checked_add u64_max month e) false (λ v. leb v l))
        ≡ true =
      rw has at h in
    ground arith

credited_month :
    (p out : EnergyProducer) (r : OracleReport)
    → credit_producer p r ≡ ok out
    → (out.month_energy_wh ≡ p.month_energy_wh + r.energy_wh)
      × (out.month_start_ts ≡ p.month_start_ts)
      × (out.tier ≡ p.tier)
unfolding credit_producer
credited_month p out r h = ground arith

rolled : (p : EnergyProducer) (now : ℤ) → (roll_month p now).tier ≡ p.tier
unfolding roll_month
rolled p now = ground arith

pub admitted :
    (rt : Runtime) (c : MintContext) (s : MintState) (r : OracleReport) (z : MintState × Split)
    → mint_energy rt c s r ≡ ok z
    → admit rt c s r ≡ ok tt
unfolding mint_energy
admitted rt c s r z h = (check_then (admit rt c s r) _ h).0

pub mint_energy-month :
    (rt : Runtime) (c : MintContext) (s : MintState) (r : OracleReport) (out : MintState)
    (split : Split) (limit : ℕ)
    → (in_force c.policy_registry).enforce_tier_limits ≡ true
    → monthly_limit_wh s.producer.tier ≡ some limit
    → mint_energy rt c s r ≡ ok (out, split)
    → (out.producer.month_energy_wh ≡ (roll_month s.producer rt.now).month_energy_wh + r.energy_wh)
      × (out.producer.month_energy_wh ≤ limit)
      × (out.producer.month_start_ts ≡ (roll_month s.producer rt.now).month_start_ts)
      × (out.producer.tier ≡ s.producer.tier)
mint_energy-month rt c s r out split limit enforced has h =
    let p = roll_month s.producer rt.now in
    let same_tier = rolled s.producer rt.now in
    let credited = credited_month p out.producer r (mint_energy-credited rt c s r out split h).0 in
    let allowed = (admit_sound rt c s r (admitted rt c s r (out, split) h)).1 in
    let fits =
      allowed_limit p.tier p.month_energy_wh r.energy_wh limit (ap monthly_limit_wh same_tier ∙ has)
        (WhenOn-elim allowed.is_within_tier enforced) in
    (credited.0, omega (arith, credited.0, fits), credited.1, credited.2 ∙ same_tier)

-- MonthlyMints of one device one after another, under policies that enforce the limits of the tiers.
pub data MonthlyMints : MintState → MintState → Type 0 where
  first_mint :
      (rt : Runtime) (c : MintContext) (s : MintState) (r : OracleReport) (split : Split)
      (out : MintState)
      → (in_force c.policy_registry).enforce_tier_limits ≡ true
      → mint_energy rt c s r ≡ ok (out, split)
      → MonthlyMints s out
  next_mint :
      (rt : Runtime) (c : MintContext) (r : OracleReport) (split : Split) {s b out : MintState}
      → MonthlyMints s b
      → (in_force c.policy_registry).enforce_tier_limits ≡ true
      → mint_energy rt c b r ≡ ok (out, split)
      → MonthlyMints s out

-- After one or more successful mints of a device, each under policies that enforce the limits of
-- the tiers, the energy of its month is at most the limit of its tier, where the tier has one,
-- and the tier is unchanged.
pub month_is_limited :
    (s out : MintState) (limit : ℕ)
    → monthly_limit_wh s.producer.tier ≡ some limit
    → MonthlyMints s out
    → (out.producer.month_energy_wh ≤ limit) × (out.producer.tier ≡ s.producer.tier)
month_is_limited s out limit has (first_mint rt c _ r split _ enforced h) =
    let (_, low, _, tier) = mint_energy-month rt c s r out split limit enforced has h in (low, tier)
month_is_limited s out limit has (next_mint rt c r split {b = b} before enforced h) =
    let (_, same) = month_is_limited s b limit has before in
    let (_, low, _, tier) =
      mint_energy-month rt c b r out split limit enforced (ap monthly_limit_wh same ∙ has) h in
    (low, tier ∙ same)
