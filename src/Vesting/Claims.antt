-- ===== src/Vesting/Claims.antt =====
-- Claims of the vested amount, one after another.
use enrg.Prelude.{
  ℕ, ◌+◌, ◌≤◌, ◌<◌, ◌≡◌, refl, ap, ◌∙◌, ok, arith, u64_max, List, [], ◌∷◌, sum, require_then,
  >>=-eq-ok, ◌==◌,
}
use enrg.Solana.{Pubkey, Runtime, TokenAccount}
use enrg.Constants.{founder_wallet}
use enrg.Vesting.{FounderVesting, vested_at, pay_claim, claim_vested}
use enrg.Vesting.Release.{vested_at-le}

-- Claims one after another: the amounts that were transferred, the newest first.
pub data Claims : FounderVesting → List ℕ → FounderVesting → Type 0 where
  none_yet : {v : FounderVesting} → Claims v [] v
  then_claim :
      (rt : Runtime) (ata : TokenAccount) (destination signer : Pubkey) {v b out : FounderVesting}
      {amounts : List ℕ} {amount : ℕ}
      → Claims v amounts b
      → claim_vested rt b ata destination signer ≡ ok (out, amount)
      → Claims v (amount ∷ amounts) out

-- The end of a claim, from the amount that is vested.
claim_rest :
    (rt : Runtime) (v out : FounderVesting) (ata : TokenAccount) (destination : Pubkey)
    (amount vested : ℕ)
    (e : vested_at v.total_amount v.start_time v.cliff v.release rt.now ≡ ok vested)
    → pay_claim rt v ata destination vested ≡ ok (out, amount)
    → (out.withdrawn ≡ v.withdrawn + amount)
      × (0 < amount)
      × (vested_at v.total_amount v.start_time v.cliff v.release rt.now ≡ ok out.withdrawn)
      × (out.total_amount ≡ v.total_amount)
unfolding pay_claim
claim_rest rt v out ata destination amount vested e h =
    let same : vested ≡ out.withdrawn = ground arith in
    (ground arith, ground arith, e ∙ ap ok same, ground arith)

claimed :
    (rt : Runtime) (v out : FounderVesting) (ata : TokenAccount) (destination signer : Pubkey)
    (amount : ℕ)
    → claim_vested rt v ata destination signer ≡ ok (out, amount)
    → (out.withdrawn ≡ v.withdrawn + amount)
      × (0 < amount)
      × (vested_at v.total_amount v.start_time v.cliff v.release rt.now ≡ ok out.withdrawn)
      × (out.total_amount ≡ v.total_amount)
unfolding claim_vested
claimed rt v out ata destination signer amount h =
    let (_, h₁) = require_then (ata.owner == founder_wallet) _ _ h in
    let (_, h₂) = require_then (v.founder == signer) _ _ h₁ in
    let (vested, e, h₃) =
      >>=-eq-ok (vested_at v.total_amount v.start_time v.cliff v.release rt.now) _ h₂ in
    claim_rest rt v out ata destination amount vested e h₃

Claims-withdrawn :
    (v out : FounderVesting) (amounts : List ℕ)
    → v.withdrawn ≡ 0
    → v.total_amount ≤ u64_max
    → Claims v amounts out
    → ((sum amounts ≡ out.withdrawn) × (sum amounts ≤ v.total_amount))
      × (out.total_amount ≡ v.total_amount)
unfolding sum
Claims-withdrawn v out amounts zero fits none_yet = ((omega (arith, zero), omega arith), refl)
Claims-withdrawn v out amounts zero fits
      (then_claim rt ata destination signer {b = b} {amounts = earlier} {amount = amount} before
        h) =
    let ((so_far, _), same) = Claims-withdrawn v b earlier zero fits before in
    let (withdrawn, _, vested, kept) = claimed rt b out ata destination signer amount h in
    let bound =
      vested_at-le b.total_amount out.withdrawn b.start_time b.cliff b.release rt.now
        (omega (arith, same, fits)) vested in
    ((omega (arith, so_far, withdrawn), omega (arith, so_far, withdrawn, bound, same)), kept ∙ same)

-- From a vesting record with nothing withdrawn and an amount that fits a word, after any sequence
-- of successful claims the sum of the transferred amounts is what the record says was withdrawn,
-- and at most the whole amount.
pub Claims-sum :
    (v out : FounderVesting) (amounts : List ℕ)
    → v.withdrawn ≡ 0
    → v.total_amount ≤ u64_max
    → Claims v amounts out
    → (sum amounts ≡ out.withdrawn) × (sum amounts ≤ v.total_amount)
Claims-sum v out amounts zero fits calls = (Claims-withdrawn v out amounts zero fits calls).0
