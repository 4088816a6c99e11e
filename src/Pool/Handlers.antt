-- ===== src/Pool/Handlers.antt =====
-- programs/enrg-mvp/src/instructions/pool.rs: creating a pool and joining it.
use enrg.Prelude.{
  ℕ, ◌≤◌, ◌≡◌, sym, ap, ◌∙◌, arith, true, false, not, Option, [], ltb, ltb→lt, ◌==◌, if◌then◌else◌,
  length, contains, distinct, push, length-push, distinct-push, Result, ok, ErrorCode, require,
  ◌>>◌, require_then, ok-injective,
}
use enrg.Constants.{default_pool_threshold}
use enrg.Solana.{Pubkey, default_key, vacant, Runtime}
use enrg.Pool.{Pool, PoolContribution, max_producers}

-- The address of the pool is a PDA of its authority.
unfoldable pub create_pool : Runtime → Option Pool → Pubkey → Pubkey → ℕ → Result Pool
create_pool rt existing key authority threshold = do
  vacant existing
  ok (record {
    key = key;
    authority = authority;
    total_energy = 0;
    threshold = if threshold == 0 then default_pool_threshold else threshold;
    producers = [];
    is_active = true;
    created_at = rt.now;
  })

-- The contribution of a member: as `init_if_needed` made it, all zero, or as a former call left it.
unfoldable pub first_share : Runtime → Pool → Pubkey → PoolContribution → PoolContribution
first_share rt pool producer share =
    if share.pool == default_key
    then record share { pool = pool.key; producer = producer; energy_wh = 0; updated_at = rt.now }
    else share

unfoldable pub join_pool :
    Runtime → Pool → Pubkey → PoolContribution → Result (Pool × PoolContribution)
unfolding first_share
join_pool rt pool producer share = do
  require (not (contains producer pool.producers)) ErrorCode.already_in_pool
  require (ltb (length pool.producers) max_producers) ErrorCode.invalid_parameter
  ok (record pool { producers = push pool.producers producer }, first_share rt pool producer share)

-- The members of a pool are different and at most 100.
pub record IsPool (pool : Pool) : Type 0 where
  pub different : distinct pool.producers ≡ true
  pub bounded : length pool.producers ≤ max_producers

pub join_pool-IsPool :
    (rt : Runtime) (pool out : Pool) (producer : Pubkey) (share kept : PoolContribution)
    → IsPool pool
    → join_pool rt pool producer share ≡ ok (out, kept)
    → IsPool out
      × (out.producers ≡ push pool.producers producer)
      × (contains producer pool.producers ≡ false)
unfolding join_pool
join_pool-IsPool rt pool out producer share kept sound h =
    let (c₁, h₁) = require_then (not (contains producer pool.producers)) _ _ h in
    let (c₂, h₂) = require_then (ltb (length pool.producers) max_producers) _ _ h₁ in
    let e = ok-injective _ _ h₂ in
    let members : push pool.producers producer ≡ out.producers = ap (λ r. r.0.producers) e in
    let fresh : contains producer pool.producers ≡ false = ground arith in
    (
      record {
        different =
            sym (ap distinct members) ∙ distinct-push producer pool.producers sound.different fresh;
        bounded =
            omega (arith, ap length members, length-push pool.producers producer, ltb→lt _ _ c₂);
      },
      sym members,
      fresh,
    )
