-- ===== src/Pool/Total.antt =====
-- What a successful distribution did: whom it paid, and that the payouts are the growth of the
-- supply.
use mathlib.Core.Path.{subst}
use enrg.Prelude.{
  ℕ, ◌+◌, ◌*◌, ◌≤◌, ◌<◌, min, ◌≡◌, refl, sym, ap, ◌∙◌, arith, true, List, [], ◌∷◌, sum, length, ltb,
  leb, ◌==◌, ltb→lt, leb→le, ==→eq, All, contains, u64_max, u128_max, ok, checked_add, require_then,
  check_then, >>=-eq-ok, ok_or_then, ok-injective,
}
use enrg.Solana.{Pubkey, Runtime, mint_to}
use enrg.Math.{fp_scale, calculate_reward}
use enrg.Vault.{Vault}
use enrg.Pool.{Pool, max_producers, pool_threshold_reached}
use enrg.Pool.Handlers.{IsPool}
use enrg.Pool.Distribute.{
  RemainingAccount, Member, DistributePool, Distribution, as_member, check_member, read_members,
  weighted_sum_from, rewards_from, weights, mint_rewards, pool_reward, admit_members,
  distribute_pool,
}
use enrg.Pool.Payout.{
  share_sum-le-scale, payout_sum_le, rewards_from-sum, length-rewards_from, length-weights,
  weighted_sum_from-min,
}

-- A member that a distribution pays: in the pool, with its own contribution to this pool, and with
-- a token account of its owner for the token of the program.
pub record IsPaid (pool : Pool) (mint : Pubkey) (m : Member) : Type 0 where
  inside : contains m.producer_key pool.producers ≡ true
  contributed : m.share.pool ≡ pool.key
  own_share : m.share.producer ≡ m.producer_key
  own_account : m.ata.owner ≡ m.producer.authority
  token : m.ata.mint ≡ mint

-- The calls into the token program: each member's account is minted its reward.
unfoldable pub AreMinted : Runtime → List Member → List ℕ → Type 0
AreMinted rt (m ∷ ms) (r ∷ rs) = (rt.invoke (mint_to m.ata.key r) ≡ ok tt) × AreMinted rt ms rs
AreMinted rt _ _ = Unit

mint_rewards-AreMinted :
    (rt : Runtime) (ms : List Member) (rs : List ℕ)
    → mint_rewards rt ms rs ≡ ok tt
    → AreMinted rt ms rs
unfolding mint_rewards AreMinted
mint_rewards-AreMinted rt [] rs h = tt
mint_rewards-AreMinted rt (m ∷ ms) [] h = tt
mint_rewards-AreMinted rt (m ∷ ms) (r ∷ rs) h =
    let (now, later) = check_then (rt.invoke (mint_to m.ata.key r)) _ h in
    (now, mint_rewards-AreMinted rt ms rs later)

check_member-IsPaid :
    (rt : Runtime) (pool : Pool) (mint : Pubkey) (m : Member)
    → check_member rt pool mint m ≡ ok tt
    → IsPaid pool mint m
unfolding check_member
check_member-IsPaid rt pool mint m h =
    let (c₁, h₁) = require_then (contains m.producer_key pool.producers) _ _ h in
    let (c₂, h₂) = require_then (m.share.pool == pool.key) _ _ h₁ in
    let (c₃, h₃) = require_then (m.share.producer == m.producer_key) _ _ h₂ in
    let (_, h₄) = require_then (m.reputation.authority == m.producer.authority) _ _ h₃ in
    let (c₅, h₅) = require_then (m.ata.owner == m.producer.authority) _ _ h₄ in
    let (c₆, _) = require_then (m.ata.mint == mint) _ _ h₅ in
    record {
      inside = c₁;
      contributed = ==→eq m.share.pool pool.key c₂;
      own_share = ==→eq m.share.producer m.producer_key c₃;
      own_account = ==→eq m.ata.owner m.producer.authority c₅;
      token = ==→eq m.ata.mint mint c₆;
    }

read_members-IsPaid :
    (rt : Runtime) (pool : Pool) (mint : Pubkey) (accounts : List RemainingAccount)
    (ms : List Member)
    → read_members rt pool mint accounts ≡ ok ms
    → (length accounts ≡ length ms * 4) × All (IsPaid pool mint) ms
unfolding read_members
read_members-IsPaid rt pool mint [] [] h = (refl, tt)
read_members-IsPaid rt pool mint [] (m ∷ ms) h = cc
read_members-IsPaid rt pool mint (p ∷ []) ms h = cc
read_members-IsPaid rt pool mint (p ∷ s ∷ []) ms h = cc
read_members-IsPaid rt pool mint (p ∷ s ∷ a ∷ []) ms h = cc
read_members-IsPaid rt pool mint (p ∷ s ∷ a ∷ r ∷ rest) ms h =
    let (m, _, h₁) = >>=-eq-ok (as_member p s a r) _ h in
    let (c, h₂) = check_then (check_member rt pool mint m) _ h₁ in
    let (others, h₃, h₄) = >>=-eq-ok (read_members rt pool mint rest) _ h₂ in
    let (n, paid) = read_members-IsPaid rt pool mint rest others h₃ in
    let e : m ∷ others ≡ ms = ok-injective (m ∷ others) ms h₄ in
    (
      omega (arith, n, ap length e),
      subst (All (IsPaid pool mint)) e (check_member-IsPaid rt pool mint m c, paid),
    )

admit_members-IsPaid :
    (rt : Runtime) (c : DistributePool) (ms : List Member)
    → admit_members rt c ≡ ok ms
    → (length ms ≡ length c.pool.producers)
      × (0 < length c.pool.producers)
      × (c.authority ≡ c.pool.authority)
      × All (IsPaid c.pool c.mint) ms
unfolding admit_members
admit_members-IsPaid rt c ms h =
    let reached = pool_threshold_reached c.pool.total_energy c.pool.threshold in
    let members = length c.pool.producers in
    let (_, h₁) = require_then (c.mint == c.token_mint.mint) _ _ h in
    let (signed, h₂) = require_then (c.authority == c.pool.authority) _ _ h₁ in
    let (_, h₃) = require_then reached _ _ h₂ in
    let (some_member, h₄) = require_then (ltb 0 members) _ _ h₃ in
    let (fours, h₅) = require_then (length c.remaining_accounts == members * 4) _ _ h₄ in
    let (n, paid) = read_members-IsPaid rt c.pool c.mint c.remaining_accounts ms h₅ in
    let total = ==→eq (length c.remaining_accounts) (members * 4) fours in
    (omega arith, ltb→lt 0 members some_member, ==→eq c.authority c.pool.authority signed, paid)

pool_reward-supply :
    (pool : Pool) (vault : Vault) (reward supply : ℕ)
    → pool_reward pool vault ≡ ok (reward, supply)
    → (0 < reward)
      × (supply ≡ vault.total_supply + reward)
      × (reward ≤ u64_max)
      × (supply ≤ vault.max_supply)
      × (reward ≡ calculate_reward (min pool.total_energy u64_max) vault.total_supply)
unfolding pool_reward
pool_reward-supply pool vault reward supply h =
    let amount = calculate_reward (min pool.total_energy u64_max) vault.total_supply in
    let (c₁, h₁) = require_then (ltb 0 amount) _ _ h in
    let (sum, e, h₂) = ok_or_then (checked_add u64_max vault.total_supply amount) _ _ h₁ in
    let (c₂, h₃) = require_then (leb sum vault.max_supply) _ _ h₂ in
    let same = ok-injective (amount, sum) (reward, supply) h₃ in
    let p : amount ≡ reward = ap (λ r. r.0) same in
    let q : sum ≡ supply = ap (λ r. r.1) same in
    let r : (sum ≡ vault.total_supply + amount) × (sum ≤ u64_max) = ground arith in
    let s = leb→le sum vault.max_supply c₂ in
    let t = ltb→lt 0 amount c₁ in (omega arith, omega arith, omega arith, omega arith, sym p)

-- The payouts by any weights whose sum is above zero.
rewards_total :
    (reward total : ℕ) (ws : List ℕ)
    → reward ≤ u64_max
    → length ws ≤ fp_scale
    → 0 < total
    → total ≡ min (sum ws) u128_max
    → sum (rewards_from reward total 0 ws) ≡ reward
unfolding sum
rewards_total reward total [] small few above e = absurd (omega arith)
rewards_total reward total (w ∷ ws) small few above e =
    let whole = share_sum-le-scale total (w ∷ ws) above e few in
    let early = payout_sum_le reward total (w ∷ ws) whole in
    let exact = rewards_from-sum reward total 0 w ws small (omega (arith, early)) in
    omega (arith, exact)

-- A member list of a pool, weighed and paid.
members_total :
    (reward energy : ℕ) (ms : List Member)
    → reward ≤ u64_max
    → length ms ≤ max_producers
    → 0 < weighted_sum_from 0 energy ms
    → (sum (rewards_from reward (weighted_sum_from 0 energy ms) 0 (weights energy ms)) ≡ reward)
      × (length (rewards_from reward (weighted_sum_from 0 energy ms) 0 (weights energy ms))
          ≡ length ms)
members_total reward energy ms small few above =
    let ws = weights energy ms in
    let total = weighted_sum_from 0 energy ms in
    let n = length-weights energy ms in
    let whole = weighted_sum_from-min 0 energy ms (omega arith) in
    (
      rewards_total reward total ws small (omega arith) above (omega (arith, whole)),
      length-rewards_from reward total 0 ws ∙ n,
    )

abbrev IsDistribution : Runtime → DistributePool → Distribution → Type 0
IsDistribution rt c out =
    (out.vault.total_supply ≡ c.vault.total_supply + sum out.rewards)
    × (out.vault.total_supply ≤ c.vault.max_supply)
    × (sum out.rewards ≡ calculate_reward (min c.pool.total_energy u64_max) c.vault.total_supply)
    × (length out.rewards ≡ length out.members)
    × (length out.members ≡ length c.pool.producers)
    × All (IsPaid c.pool c.mint) out.members
    × AreMinted rt out.members out.rewards
    × (c.authority ≡ c.pool.authority)
    × (out.pool.total_energy ≡ 0)

-- A successful distribution of a pool with different members, at most a hundred, was called by
-- the pool's authority; it makes as many payouts as the pool has members, each a call that mints
-- the payout's reward to the token account given with it; each account is for the program's token
-- and of the owner of some member with its own contribution, where one member may be paid several
-- times and another never; the rewards add up exactly to the reward of the pool's energy and to
-- the growth of the supply, which stays within its maximum; and the energy of the pool is then
-- zero.
pub distribute_pool_total :
    (rt : Runtime) (c : DistributePool) (out : Distribution)
    → IsPool c.pool
    → distribute_pool rt c ≡ ok out
    → (out.vault.total_supply ≡ c.vault.total_supply + sum out.rewards)
      × (out.vault.total_supply ≤ c.vault.max_supply)
      × (sum out.rewards ≡ calculate_reward (min c.pool.total_energy u64_max) c.vault.total_supply)
      × (length out.rewards ≡ length out.members)
      × (length out.members ≡ length c.pool.producers)
      × All (IsPaid c.pool c.mint) out.members
      × AreMinted rt out.members out.rewards
      × (c.authority ≡ c.pool.authority)
      × (out.pool.total_energy ≡ 0)
unfolding distribute_pool
distribute_pool_total rt c out sound h =
    let energy = c.pool.total_energy in
    let (ms, admitted, h₁) = >>=-eq-ok (admit_members rt c) _ h in
    let total = weighted_sum_from 0 energy ms in
    let (above, h₂) = require_then (ltb 0 total) _ _ h₁ in
    let (pair, priced, h₃) = >>=-eq-ok (pool_reward c.pool c.vault) _ h₂ in
    let rewards = rewards_from pair.0 total 0 (weights energy ms) in
    let (called, h₄) = check_then (mint_rewards rt ms rewards) _ h₃ in
    let (n, _, signed, paid) = admit_members-IsPaid rt c ms admitted in
    let (_, grown, small, capped, price) = pool_reward-supply c.pool c.vault pair.0 pair.1 priced in
    let few : length ms ≤ max_producers = omega (arith, n, sound.bounded) in
    let (all, k) = members_total pair.0 energy ms small few (ltb→lt 0 total above) in
    subst (IsDistribution rt c) (ok-injective _ out h₄) (
      grown ∙ ap (λ t. c.vault.total_supply + t) (sym all),
      capped,
      all ∙ price,
      k,
      n,
      paid,
      mint_rewards-AreMinted rt ms rewards called,
      signed,
      refl,
    )

pub distribute_pool-capped :
    (rt : Runtime) (c : DistributePool) (out : Distribution)
    → distribute_pool rt c ≡ ok out
    → out.vault.max_supply ≡ c.vault.max_supply
unfolding distribute_pool
distribute_pool-capped rt c out h =
    let energy = c.pool.total_energy in
    let (ms, _, h₁) = >>=-eq-ok (admit_members rt c) _ h in
    let total = weighted_sum_from 0 energy ms in
    let (_, h₂) = require_then (ltb 0 total) _ _ h₁ in
    let (pair, _, h₃) = >>=-eq-ok (pool_reward c.pool c.vault) _ h₂ in
    let rewards = rewards_from pair.0 total 0 (weights energy ms) in
    let (_, h₄) = check_then (mint_rewards rt ms rewards) _ h₃ in
    sym (ap (λ d. d.vault.max_supply) (ok-injective _ out h₄))
