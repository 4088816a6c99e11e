-- ===== src/Policy/Updates.antt =====
-- The policies that the registry can hold: the handlers keep its numbers in their ranges.
use enrg.Prelude.{ℕ, ◌+◌, ◌≤◌, ◌<◌, ◌≡◌, refl, Option, none, some, ok, arith}
use enrg.Prelude.Int.{pos, ◌≤ℤ◌}
use enrg.Solana.{Pubkey, Runtime}
use enrg.Policy.{
  PolicyRegistry, PolicyUpdate, initialize_policy_registry, update_policy, set_policy_authority,
}

-- One successful call of a handler, from the registry's address empty or taken.
infix 40 ◌⟶◌ ◌⟶*◌
pub data ◌⟶◌ : Option PolicyRegistry → Option PolicyRegistry → Type 0 where
  initializes :
      (rt : Runtime) (old : Option PolicyRegistry) (signer : Pubkey) (bump : ℕ)
      {new : PolicyRegistry}
      → initialize_policy_registry rt old signer bump ≡ ok new
      → old ⟶ some new
  updates :
      (rt : Runtime) (old : PolicyRegistry) (signer : Pubkey) (update : PolicyUpdate)
      {new : PolicyRegistry}
      → update_policy rt old signer update ≡ ok new
      → some old ⟶ some new
  hands_over :
      (rt : Runtime) (old : PolicyRegistry) (signer new_authority : Pubkey) {new : PolicyRegistry}
      → set_policy_authority rt old signer new_authority ≡ ok new
      → some old ⟶ some new

pub data ◌⟶*◌ : Option PolicyRegistry → Option PolicyRegistry → Type 0 where
  stays : {o : Option PolicyRegistry} → o ⟶* o
  steps : {a b c : Option PolicyRegistry} → a ⟶* b → b ⟶ c → a ⟶* c

abbrev pub version_of : Option PolicyRegistry → ℕ
version_of none = 0
version_of (some p) = p.version

abbrev pub InRange : Option PolicyRegistry → Type 0
InRange none = Unit
InRange (some p) =
    (0 < p.max_energy_bps)
    × (p.max_energy_bps ≤ 1_000_000)
    × (pos 0 ≤ℤ p.max_clock_skew_sec)
    × (p.max_clock_skew_sec ≤ℤ pos 3_600)

pub ⟶-InRange : (a b : Option PolicyRegistry) → a ⟶ b → InRange a → InRange b
unfolding initialize_policy_registry update_policy set_policy_authority
⟶-InRange a b (initializes rt none signer bump h) r = ground arith
⟶-InRange a b (initializes rt (some p) signer bump h) r = absurd (ground arith)
⟶-InRange a b (updates rt old signer update h) r = ground arith
⟶-InRange a b (hands_over rt old signer new_authority h) r = ground arith

⟶-version : (a b : Option PolicyRegistry) → a ⟶ b → version_of b ≡ version_of a + 1
unfolding initialize_policy_registry update_policy set_policy_authority
⟶-version a b (initializes rt none signer bump h) = ground arith
⟶-version a b (initializes rt (some p) signer bump h) = absurd (ground arith)
⟶-version a b (updates rt old signer update h) = ground arith
⟶-version a b (hands_over rt old signer new_authority h) = ground arith

abbrev pub steps_of : {a b : Option PolicyRegistry} → a ⟶* b → ℕ
steps_of stays = 0
steps_of (steps before last) = steps_of before + 1

-- After any successful calls on the policies from an empty address, the basis points lie between
-- 1 and 1,000,000 and the clock skew between 0 and 3,600 seconds, if there are policies, and the
-- version is the number of the calls.
pub policies_are_sane :
    (b : Option PolicyRegistry) (calls : none ⟶* b) → InRange b × (version_of b ≡ steps_of calls)
policies_are_sane b stays = (tt, refl)
policies_are_sane c (steps {b = b} before last) =
    let (range, count) = policies_are_sane b before in
    (⟶-InRange b c last range, omega (arith, count, ⟶-version b c last))
