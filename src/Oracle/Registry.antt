-- ===== src/Oracle/Registry.antt =====
-- The registry as a set of at most a hundred oracles.
use enrg.Prelude.{
  ℕ, ◌≤◌, ◌≡◌, sym, ap, ◌∙◌, true, not, ◌&&◌, ◌||◌, ◌==◌, none, some, length, contains, distinct,
  position, remove_at, ok, arith, contains-push, distinct-push, length-push, contains-remove_at,
  distinct-remove_at, length-remove_at, require_then, ok_or_then,
}
use enrg.Solana.{Pubkey}
use enrg.Oracle.{
  OracleRegistry, max_oracles, trusts, initialize_oracle_registry, set_oracle_admin,
  set_oracle_registry_authority, add_oracle, remove_oracle,
}

abbrev pub IsWellFormed : OracleRegistry → Type 0
IsWellFormed r = (distinct r.oracles ≡ true) × (length r.oracles ≤ max_oracles)

-- Adding an oracle adds it to the trusted set, and nothing else changes its trust.
pub trusts-add_oracle :
    (r out : OracleRegistry) (signer oracle : Pubkey)
    → add_oracle r signer oracle ≡ ok out
    → (j : Pubkey) → trusts out j ≡ (oracle == j) || trusts r j
unfolding add_oracle
trusts-add_oracle r out signer oracle h j =
    ground (arith, contains-push j oracle r.oracles, ap (λ x. trusts x j))

removed :
    (r out : OracleRegistry) (signer oracle : Pubkey)
    → remove_oracle r signer oracle ≡ ok out
    → (i : ℕ) × (position oracle r.oracles ≡ some i) × (remove_at i r.oracles ≡ out.oracles)
unfolding remove_oracle
removed r out signer oracle h =
    let (_, h₁) = require_then (r.oracle_admin == signer) _ _ h in
    let (i, e, h₂) = ok_or_then (position oracle r.oracles) _ _ h₁ in (i, e, ground arith)

-- Removing an oracle from a well-formed registry takes it out of the set of the trusted oracles,
-- and changes the trust in no other.
pub trusts-remove_oracle :
    (r out : OracleRegistry) (signer oracle : Pubkey)
    → IsWellFormed r
    → remove_oracle r signer oracle ≡ ok out
    → (j : Pubkey) → trusts out j ≡ not (oracle == j) && trusts r j
trusts-remove_oracle r out signer oracle (d, _) h j =
    let (i, e, rest) = removed r out signer oracle h in
    ap (contains j) (sym rest) ∙ contains-remove_at j oracle i r.oracles d e

-- One successful call of a handler.
infix 40 ◌⟶◌ ◌⟶*◌
pub data ◌⟶◌ : OracleRegistry → OracleRegistry → Type 0 where
  sets_admin :
      (r : OracleRegistry) (signer new_admin : Pubkey) {out : OracleRegistry}
      → set_oracle_admin r signer new_admin ≡ ok out
      → r ⟶ out
  sets_authority :
      (r : OracleRegistry) (signer new_authority : Pubkey) {out : OracleRegistry}
      → set_oracle_registry_authority r signer new_authority ≡ ok out
      → r ⟶ out
  adds :
      (r : OracleRegistry) (signer oracle : Pubkey) {out : OracleRegistry}
      → add_oracle r signer oracle ≡ ok out
      → r ⟶ out
  removes :
      (r : OracleRegistry) (signer oracle : Pubkey) {out : OracleRegistry}
      → remove_oracle r signer oracle ≡ ok out
      → r ⟶ out

pub data ◌⟶*◌ : OracleRegistry → OracleRegistry → Type 0 where
  stays : {r : OracleRegistry} → r ⟶* r
  steps : {a b c : OracleRegistry} → a ⟶* b → b ⟶ c → a ⟶* c

pub ⟶-IsWellFormed : (a b : OracleRegistry) → a ⟶ b → IsWellFormed a → IsWellFormed b
unfolding set_oracle_admin set_oracle_registry_authority add_oracle remove_oracle
⟶-IsWellFormed a b (sets_admin r signer admin h) w = ground arith
⟶-IsWellFormed a b (sets_authority r signer admin h) w = ground arith
⟶-IsWellFormed a b (adds r signer k h) w =
    ground (arith, distinct-push k r.oracles, length-push r.oracles k)
⟶-IsWellFormed a b (removes r signer k h) (d, l) =
    let (i, e, rest) = removed r b signer k h in
    let bound = length-remove_at k i r.oracles e in
    (
      ap distinct (sym rest) ∙ distinct-remove_at k i r.oracles d e,
      omega (arith, bound, ap length rest, l),
    )

-- After any successful calls on a newly initialized registry, it holds no oracle twice, and at
-- most a hundred oracles.
pub registry-IsWellFormed :
    (r out : OracleRegistry) (deployer : Pubkey)
    → initialize_oracle_registry none deployer ≡ ok r
    → r ⟶* out
    → IsWellFormed out
unfolding initialize_oracle_registry contains distinct
registry-IsWellFormed r out deployer h stays = ground arith
registry-IsWellFormed r out deployer h (steps {b = b} before last) =
    ⟶-IsWellFormed b out last (registry-IsWellFormed r b deployer h before)
