-- ===== src/Mint/Effects.antt =====
-- What a successful mint writes.
use enrg.Prelude.{
  WhenOn-elim, when_true, ℕ, ◌+◌, ◌≡◌, ap, ◌∙◌, ok, arith, ok-injective, check_then, >>=-eq-ok,
}
use enrg.Prelude.Int.{ℤ}
use enrg.Solana.{Runtime}
use enrg.Messages.{OracleReport}
use enrg.Device.{EnergyProducer, roll_month}
use enrg.Policy.{evaluate_reward}
use enrg.Policy.Preamble.{in_force, IsCovered, evaluate_reward-IsCovered}
use enrg.Vault.{Vault}
use enrg.Profile.{record_production_authorized}
use enrg.Mint.{
  MintContext, MintState, Split, credit_producer, credit_vault, roll_network, reward_of,
  approve_reward, split_reward, pay_out, credit_reputation, credit_pool, admit, disburse, settle,
  mint_energy,
}
use enrg.Mint.Distribution.{amount_of, split_reward_conserves}

-- The writes of a mint of report `r` from `s` to `out`, with the amounts `split`.
pub record IsSettled (c : MintContext) (s : MintState) (r : OracleReport) (out : MintState)
    (split : Split) : Type 0 where
  pub is_covered : IsCovered (in_force c.policy_registry) (record {
    policy = c.policy_registry;
    reward = amount_of split;
    vault_total_supply = s.vault.total_supply;
    vault_max_supply = s.vault.max_supply;
  })
  pub is_supplied : out.vault.total_supply ≡ s.vault.total_supply + amount_of split
  pub is_capped : out.vault.max_supply ≡ s.vault.max_supply
  pub is_counted : out.vault.total_proofs ≡ s.vault.total_proofs + 1
  pub is_measured : out.vault.total_energy_wh ≡ s.vault.total_energy_wh + r.energy_wh
  pub is_used : out.producer.nonce ≡ r.nonce
  pub is_credited : out.producer.energy_wh ≡ s.producer.energy_wh + r.energy_wh
  pub is_same_device : out.producer.device_id ≡ s.producer.device_id
  pub is_same_owner : out.producer.authority ≡ s.producer.authority

roll_network-same :
    (rt : Runtime) (v out : Vault) (e : ℕ)
    → roll_network rt v e ≡ ok out
    → (out.total_supply ≡ v.total_supply)
      × (out.max_supply ≡ v.max_supply)
      × (out.total_proofs ≡ v.total_proofs)
      × (out.total_energy_wh ≡ v.total_energy_wh)
unfolding roll_network
roll_network-same rt v out e h = ground arith

credit_producer-values :
    (p out : EnergyProducer) (r : OracleReport)
    → credit_producer p r ≡ ok out
    → (out.nonce ≡ r.nonce)
      × (out.energy_wh ≡ p.energy_wh + r.energy_wh)
      × (out.device_id ≡ p.device_id)
      × (out.authority ≡ p.authority)
unfolding credit_producer
credit_producer-values p out r h = ground arith

pub roll_month-same :
    (p : EnergyProducer) (now : ℤ)
    → ((roll_month p now).nonce ≡ p.nonce)
      × ((roll_month p now).energy_wh ≡ p.energy_wh)
      × ((roll_month p now).device_id ≡ p.device_id)
      × ((roll_month p now).authority ≡ p.authority)
      × ((roll_month p now).revoked ≡ p.revoked)
unfolding roll_month
roll_month-same p now = ground arith

credit_vault-values :
    (v out : Vault) (supply e : ℕ)
    → credit_vault v supply e ≡ ok out
    → (out.total_supply ≡ supply)
      × (out.max_supply ≡ v.max_supply)
      × (out.total_proofs ≡ v.total_proofs + 1)
      × (out.total_energy_wh ≡ v.total_energy_wh + e)
unfolding credit_vault
credit_vault-values v out supply e h = ground arith

approve_reward-values :
    (c : MintContext) (v : Vault) (reward supply : ℕ)
    → approve_reward c v reward ≡ ok supply
    → (evaluate_reward (record {
      policy = c.policy_registry;
      reward = reward;
      vault_total_supply = v.total_supply;
      vault_max_supply = v.max_supply;
    })
        ≡ ok tt)
      × (supply ≡ v.total_supply + reward)
unfolding approve_reward
approve_reward-values c v reward supply h =
    let (covered, h₁) = check_then (evaluate_reward _) _ h in (covered, ground arith)

-- The stages' results, put together.
stages-IsSettled :
    (rt : Runtime) (c : MintContext) (s : MintState) (r : OracleReport) (out : MintState)
    (split : Split) (network : Vault) (supply : ℕ)
    → roll_network rt s.vault r.energy_wh ≡ ok network
    → credit_producer (roll_month s.producer rt.now) r ≡ ok out.producer
    → approve_reward c network (reward_of r network s.profile) ≡ ok supply
    → split_reward (reward_of r network s.profile) ≡ ok split
    → credit_vault network supply r.energy_wh ≡ ok out.vault
    → IsSettled c s r out split
stages-IsSettled rt c s r out split network supply e₁ e₂ e₃ e₄ e₅ =
    let reward = reward_of r network s.profile in
    let rolled = roll_network-same rt s.vault network r.energy_wh e₁ in
    let month = roll_month-same s.producer rt.now in
    let credited = credit_producer-values (roll_month s.producer rt.now) out.producer r e₂ in
    let approved = approve_reward-values c network reward supply e₃ in
    let whole = (split_reward_conserves reward split e₄).0 in
    let vault = credit_vault-values network out.vault supply r.energy_wh e₅ in
    let covered = evaluate_reward-IsCovered _ approved.0 in
    record {
      is_covered = (
        rw whole covered.0,
        when_true (in_force c.policy_registry).enforce_supply_cap
            (λ enforced. omega (arith, whole, rolled.0, rolled.1, WhenOn-elim covered.1 enforced)),
      );
      is_supplied = omega (arith, vault.0, approved.1, rolled.0, whole);
      is_capped = vault.1 ∙ rolled.1;
      is_counted = omega (arith, vault.2, rolled.2);
      is_measured = omega (arith, vault.3, rolled.3);
      is_used = credited.0;
      is_credited = omega (arith, credited.1, month.1);
      is_same_device = credited.2 ∙ month.2;
      is_same_owner = credited.3 ∙ month.3;
    }

-- What `disburse` leaves: the split of the reward, the vault credited, and the producer as it was.
disbursed :
    (rt : Runtime) (c : MintContext) (s : MintState) (r : OracleReport) (reward supply : ℕ)
    (out : MintState) (split : Split)
    → disburse rt c s r reward supply ≡ ok (out, split)
    → (split_reward reward ≡ ok split)
      × (credit_vault s.vault supply r.energy_wh ≡ ok out.vault)
      × (s.producer ≡ out.producer)
unfolding disburse
disbursed rt c s r reward supply out split h =
    let (amounts, e, h₁) = >>=-eq-ok (split_reward reward) _ h in
    let (_, h₂) = check_then (pay_out rt c amounts) _ h₁ in
    let (vault, e', h₃) = >>=-eq-ok (credit_vault s.vault supply r.energy_wh) _ h₂ in
    let (_, _, h₄) = >>=-eq-ok (credit_reputation s.reputation r.energy_wh rt.now) _ h₃ in
    let (_, _, h₅) = >>=-eq-ok (credit_pool rt c s.pool s.pool_share r.energy_wh) _ h₄ in
    let same = ok-injective _ (out, split) h₅ in
    (e ∙ ap (λ z. ok z.1) same, e' ∙ ap (λ z. ok z.0.vault) same, ap (λ z. z.0.producer) same)

settle-IsSettled :
    (rt : Runtime) (c : MintContext) (s : MintState) (r : OracleReport) (out : MintState)
    (split : Split)
    → settle rt c s r ≡ ok (out, split)
    → IsSettled c s r out split
unfolding settle
settle-IsSettled rt c s r out split h =
    let (network, e₁, h₁) = >>=-eq-ok (roll_network rt s.vault r.energy_wh) _ h in
    let (profile, _, h₂) =
      >>=-eq-ok
        (record_production_authorized rt s.profile c.mint_authority c.producer_owner r.energy_wh
          rt.now)
        _ h₁ in
    let (producer, e₂, h₃) = >>=-eq-ok (credit_producer (roll_month s.producer rt.now) r) _ h₂ in
    let reward = reward_of r network s.profile in
    let (supply, e₃, h₄) = >>=-eq-ok (approve_reward c network reward) _ h₃ in
    let written : MintState = record s {
      producer = producer;
      vault = network;
      profile = profile;
    } in
    let (e₄, e₅, same) = disbursed rt c written r reward supply out split h₄ in
    stages-IsSettled rt c s r out split network supply e₁ (e₂ ∙ ap ok same) e₃ e₄ e₅

-- A successful mint raises the total supply by exactly the sum of the five amounts of its split,
-- leaves the maximum as it is, counts one proof, and adds the energy of the report to the vault
-- and to the device; the sum is positive and, where the policies in force enforce the supply cap,
-- the new supply is at most the maximum; the device keeps its key and owner, and its nonce
-- becomes that of the report.
pub mint_energy-IsSettled :
    (rt : Runtime) (c : MintContext) (s : MintState) (r : OracleReport) (out : MintState)
    (split : Split)
    → mint_energy rt c s r ≡ ok (out, split)
    → IsSettled c s r out split
unfolding mint_energy
mint_energy-IsSettled rt c s r out split h =
    settle-IsSettled rt c s r out split (check_then (admit rt c s r) _ h).1

-- The device's record after the stages, and the reward that they split.
settle-credited :
    (rt : Runtime) (c : MintContext) (s : MintState) (r : OracleReport) (out : MintState)
    (split : Split)
    → settle rt c s r ≡ ok (out, split)
    → (credit_producer (roll_month s.producer rt.now) r ≡ ok out.producer)
      × (network : Vault) × (split_reward (reward_of r network s.profile) ≡ ok split)
unfolding settle
settle-credited rt c s r out split h =
    let (network, _, h₁) = >>=-eq-ok (roll_network rt s.vault r.energy_wh) _ h in
    let (profile, _, h₂) =
      >>=-eq-ok
        (record_production_authorized rt s.profile c.mint_authority c.producer_owner r.energy_wh
          rt.now)
        _ h₁ in
    let (producer, e, h₃) = >>=-eq-ok (credit_producer (roll_month s.producer rt.now) r) _ h₂ in
    let reward = reward_of r network s.profile in
    let (supply, _, h₄) = >>=-eq-ok (approve_reward c network reward) _ h₃ in
    let written : MintState = record s {
      producer = producer;
      vault = network;
      profile = profile;
    } in
    let (parts, _, same) = disbursed rt c written r reward supply out split h₄ in
    (e ∙ ap ok same, network, parts)

-- The device's record after a mint is the credited one, and the amounts add up to the reward.
pub mint_energy-credited :
    (rt : Runtime) (c : MintContext) (s : MintState) (r : OracleReport) (out : MintState)
    (split : Split)
    → mint_energy rt c s r ≡ ok (out, split)
    → (credit_producer (roll_month s.producer rt.now) r ≡ ok out.producer)
      × (network : Vault) × (amount_of split ≡ reward_of r network s.profile)
unfolding mint_energy
mint_energy-credited rt c s r out split h =
    let (credited, network, parts) =
      settle-credited rt c s r out split (check_then (admit rt c s r) _ h).1 in
    (credited, network, (split_reward_conserves (reward_of r network s.profile) split parts).0)
