-- ===== src/Profile/Window.antt =====
-- The profile's handlers: the rated power is fixed once, and the window of energy stays bounded.
use enrg.Prelude.{ℕ, ◌+◌, ◌≤◌, ◌≡◌, ◌≢◌, refl, sym, ◌∙◌, u128_max, ok, arith}
use enrg.Prelude.Int.{ℤ}
use enrg.Solana.{Pubkey, Bytes, Runtime}
use enrg.Profile.{
  EnergyProfile, decayed, update_metadata, record_production_inner, record_production_authorized,
}

-- Whatever time has passed, the window holds the new energy, and at most the old energy with it.
pub decayed_bounds :
    (current e : ℕ) (t : ℤ)
    → current + e ≤ u128_max
    → (e ≤ decayed current t e) × (decayed current t e ≤ current + e)
unfolding decayed
decayed_bounds current e t h = ground arith

-- A call of the owner.
infix 40 ◌⟶◌ ◌⟶*◌
pub data ◌⟶◌ : EnergyProfile → EnergyProfile → Type 0 where
  updates :
      (p : EnergyProfile) (rated : ℕ) (device_type location : Bytes) (out : EnergyProfile)
      → update_metadata p rated device_type location ≡ ok out
      → p ⟶ out
  records :
      (rt : Runtime) (p : EnergyProfile) (caller owner : Pubkey) (e : ℕ) (t : ℤ)
      (out : EnergyProfile)
      → record_production_authorized rt p caller owner e t ≡ ok out
      → p ⟶ out

pub data ◌⟶*◌ : EnergyProfile → EnergyProfile → Type 0 where
  stays : {p : EnergyProfile} → p ⟶* p
  steps : {a b c : EnergyProfile} → a ⟶* b → b ⟶ c → a ⟶* c

⟶-rated_power :
    (a b : EnergyProfile)
    → a ⟶ b
    → a.rated_power ≢ 0
    → (b.rated_power ≡ a.rated_power) × (b.authority ≡ a.authority)
unfolding update_metadata record_production_authorized record_production_inner
⟶-rated_power _ _ (updates p rated device_type location out h) n = ground arith
⟶-rated_power _ _ (records rt p caller owner e t out h) n = ground arith

-- A rated power other than zero is unchanged by any sequence of successful updates of the
-- metadata and authorized records of production.
pub rated_power_is_fixed :
    (a b : EnergyProfile) → a.rated_power ≢ 0 → a ⟶* b → b.rated_power ≡ a.rated_power
rated_power_is_fixed a b n stays = refl
rated_power_is_fixed a c n (steps {b = b} before last) =
    let kept = rated_power_is_fixed a b n before in
    let same = ⟶-rated_power b c last (λ e. n (sym kept ∙ e)) in same.0 ∙ kept
