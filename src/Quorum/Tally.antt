-- ===== src/Quorum/Tally.antt =====
-- The votes on one proof: what its attestation says of the votes that were stored.
use enrg.Prelude.{
  ℕ, suc, ◌≤◌, ◌≡◌, ◌≢◌, refl, ap, min, Bool, true, false, not, ◌||◌, ◌==◌, Option, none, some,
  List, [], ◌∷◌, map, contains, distinct, u8_max, bytes_eq, bytes_eq_refl, if◌then◌else◌, ok, arith,
  check_then, ok-injective, require_then,
}
use enrg.Prelude.Int.{ℤ}
use enrg.Solana.{Pubkey, Bytes, Runtime}
use enrg.Solana.{default_key}
use enrg.Solana.{all_zero}
use enrg.Messages.{to_bytes, oracle_attest_message}
use enrg.Ed25519.{verify_ed25519_signature}
use enrg.Ed25519.Sound.{verify_ed25519_signature_sound, CarriedBy}
use enrg.Oracle.{OracleRegistry, trusts}
use enrg.Quorum.{
  OracleAttestation, OracleVote, OracleStake, OracleQuorumConfig, new_attestation, apply_vote,
  threshold_of, finalize, submit_oracle_attestation,
}

-- The accounts of a proof: its attestation, and the votes at the addresses derived from it.
pub record Ballot : Type 0 where
  pub attestation : OracleAttestation
  pub votes : List OracleVote

abbrev pub voters : List OracleVote → List Pubkey
voters vs = map (λ v. v.oracle) vs

-- The vote at the address of an oracle.
unfoldable pub vote_of : Pubkey → List OracleVote → Option OracleVote
vote_of oracle [] = none
vote_of oracle (v ∷ vs) = if v.oracle == oracle then some v else vote_of oracle vs

-- How many votes carry a hash, and whether some vote carries another.
unfoldable pub agreeing : Bytes → List OracleVote → ℕ
agreeing hash [] = 0
agreeing hash (v ∷ vs) = elim (bytes_eq hash v.proof_hash) [
  | true ↦ suc (agreeing hash vs)
  | false ↦ agreeing hash vs
]

unfoldable pub contradicted : Bytes → List OracleVote → Bool
contradicted hash [] = false
contradicted hash (v ∷ vs) = not (bytes_eq hash v.proof_hash) || contradicted hash vs

-- A successful vote, under a threshold of at least `k`.
infix 40 ◌⊢◌⟶◌ ◌⊢◌⟶*◌
pub data ◌⊢◌⟶◌ (k : ℕ) : Ballot → Ballot → Type 0 where
  votes_for :
      (rt : Runtime) (b : Ballot) (registry : OracleRegistry) (stake : OracleStake)
      (config : Option OracleQuorumConfig) (key device oracle instructions : Pubkey) (nonce : ℕ)
      (hash signature : Bytes) (a : OracleAttestation) (v : OracleVote)
      → k ≤ threshold_of config
      → submit_oracle_attestation rt b.attestation
          (vote_of oracle b.votes)
          registry
          stake
          config
          key
          device
          oracle
          instructions
          nonce
          hash
          signature
        ≡ ok (a, v)
      → k ⊢ b ⟶ record { attestation = a; votes = v ∷ b.votes }

pub data ◌⊢◌⟶*◌ (k : ℕ) : Ballot → Ballot → Type 0 where
  stays : {b : Ballot} → k ⊢ b ⟶* b
  steps : {a b c : Ballot} → k ⊢ a ⟶* b → k ⊢ b ⟶ c → k ⊢ a ⟶* c

-- The attestation is the tally of the votes: it counts those that agree with its hash, up to what
-- a byte holds, and flags whether one does not.
pub record IsTally (k : ℕ) (b : Ballot) : Type 0 where
  pub counted : b.attestation.votes ≡ min (agreeing b.attestation.proof_hash b.votes) u8_max
  pub flagged : b.attestation.conflict ≡ contradicted b.attestation.proof_hash b.votes
  pub begun : (b.attestation.votes ≡ 0) → b.votes ≡ []
  pub once : distinct (voters b.votes) ≡ true
  pub reached : b.attestation.finalized ≡ true → k ≤ b.attestation.votes

abbrev pub new_ballot : Ballot
new_ballot = record { attestation = new_attestation; votes = [] }

new_ballot-IsTally : (k : ℕ) → IsTally k new_ballot
unfolding agreeing contradicted distinct
new_ballot-IsTally k = record {
  counted = refl;
  flagged = refl;
  begun = λ _. refl;
  once = refl;
  reached = λ e. absurd (ground arith);
}

fresh_voter :
    (oracle : Pubkey) (vs : List OracleVote)
    → vote_of oracle vs ≡ none
    → contains oracle (voters vs) ≡ false
unfolding vote_of contains
fresh_voter oracle [] h = refl
fresh_voter oracle (v ∷ vs) h = ground (arith, fresh_voter oracle vs)

-- One vote keeps the tally, whatever it says.
vote-IsTally :
    (k : ℕ) (a : OracleAttestation) (vs : List OracleVote) (v : OracleVote) (device : Pubkey)
    (nonce threshold : ℕ) (now : ℤ)
    → k ≤ threshold
    → IsTally k (record { attestation = a; votes = vs })
    → vote_of v.oracle vs ≡ none
    → IsTally k (record {
      attestation = finalize (apply_vote a device nonce v.proof_hash now).0 threshold;
      votes = v ∷ vs;
    })
unfolding apply_vote agreeing contradicted distinct
vote-IsTally k a [] v device nonce threshold now le w fresh =
    let self = bytes_eq_refl v.proof_hash in
    record {
      counted = ground arith;
      flagged = ground arith;
      begun = ground arith;
      once = refl;
      reached = ground arith;
    }
vote-IsTally k a (u ∷ us) v device nonce threshold now le w fresh =
    let new_voter = fresh_voter v.oracle (u ∷ us) fresh in
    let started : a.votes ≢ 0 = λ e. absurd (ground (arith, w.begun e)) in
    record {
      counted = ground arith;
      flagged = ground arith;
      begun = ground arith;
      once = ground (arith, new_voter, w.once);
      reached = ground arith;
    }

-- The vote that a call stores.
abbrev pub stored : Runtime → Pubkey → Pubkey → Bytes → OracleVote
stored rt key oracle hash = record {
  oracle = oracle;
  attestation = key;
  proof_hash = hash;
  voted_at = rt.now;
  reward_claimed = false;
}

-- A successful vote is by an oracle that the registry trusts, that has no vote on this
-- attestation yet and whose deposit is not slashed; one of the last nine instructions is the
-- Ed25519 precompile's and carries, at its offsets and with indices of 0 or 65,535, the oracle's
-- key, the signature and the message of the device, the nonce and the hash; the stored vote is
-- that oracle's for that hash, and the attestation is the one after the vote, finalized when it
-- reaches the threshold.
pub submit_oracle_attestation_sound :
    (rt : Runtime) (a : OracleAttestation) (existing : Option OracleVote)
    (registry : OracleRegistry) (stake : OracleStake) (config : Option OracleQuorumConfig)
    (key device oracle instructions : Pubkey) (nonce : ℕ) (hash signature : Bytes)
    (out : OracleAttestation) (v : OracleVote)
    → submit_oracle_attestation rt a existing registry stake config key device oracle instructions
        nonce hash signature
      ≡ ok (out, v)
    → (existing ≡ none)
      × (trusts registry oracle ≡ true)
      × (stake.slashed ≡ false)
      × CarriedBy rt.instruction_back 9 signature
          (to_bytes oracle)
          (oracle_attest_message device nonce hash)
      × (stored rt key oracle hash ≡ v)
      × (finalize (apply_vote a device nonce hash rt.now).0 (threshold_of config) ≡ out)
unfolding submit_oracle_attestation
submit_oracle_attestation_sound rt a (some u) registry stake config key device oracle instructions
      nonce hash signature out v h =
    absurd (ground arith)
submit_oracle_attestation_sound rt a none registry stake config key device oracle instructions nonce
      hash signature out v h =
    let (trusted, h₁) = require_then (trusts registry oracle) _ _ h in
    let (unslashed, h₂) = require_then (not stake.slashed) _ _ h₁ in
    let (_, h₃) = require_then (not (device == default_key)) _ _ h₂ in
    let (_, h₄) = require_then (not (all_zero hash)) _ _ h₃ in
    let message = oracle_attest_message device nonce hash in
    let (signed, h₅) =
      check_then (verify_ed25519_signature rt signature (to_bytes oracle) message instructions) _
        h₄ in
    let (_, by_oracle) =
      verify_ed25519_signature_sound rt signature (to_bytes oracle) message instructions signed in
    let same = ok-injective _ (out, v) h₅ in
    (refl, trusted, ground arith, by_oracle, ap (λ p. p.1) same, ap (λ p. p.0) same)

⟶-IsTally : (k : ℕ) (b c : Ballot) → k ⊢ b ⟶ c → IsTally k b → IsTally k c
⟶-IsTally k _ _
      (votes_for rt b registry stake config key device oracle instructions nonce hash signature a v
        le h)
      w =
    let (fresh, _, _, _, same_vote, same) =
      submit_oracle_attestation_sound rt b.attestation (vote_of oracle b.votes) registry stake
        config key device oracle instructions nonce hash signature a v h in
    let kept =
      vote-IsTally k b.attestation b.votes (stored rt key oracle hash) device nonce
        (threshold_of config) rt.now le w fresh in
    rw same at (rw same_vote at kept)

-- After any sequence of successful votes on a new attestation, each under a threshold of at least
-- k, the attestation is the tally of the stored votes: its count is the number of votes that
-- carry its hash, up to 255, its conflict flag says whether some vote carries another, no oracle
-- has two votes, a count of zero means that there is no vote, and it is finalized only with a
-- count of at least k.
pub attestation-IsTally : (k : ℕ) (b : Ballot) → k ⊢ new_ballot ⟶* b → IsTally k b
attestation-IsTally k b stays = new_ballot-IsTally k
attestation-IsTally k b (steps {b = c} before last) =
    ⟶-IsTally k c b last (attestation-IsTally k c before)

-- After any sequence of successful votes on a new attestation, each under a threshold of at least
-- k, a finalized attestation has at least k stored votes that carry its hash, and the stored
-- votes are of different oracles.
pub finalized_has_quorum :
    (k : ℕ) (b : Ballot)
    → k ⊢ new_ballot ⟶* b
    → b.attestation.finalized ≡ true
    → (k ≤ agreeing b.attestation.proof_hash b.votes) × (distinct (voters b.votes) ≡ true)
finalized_has_quorum k b calls e =
    let w = attestation-IsTally k b calls in (omega (arith, w.counted, w.reached e), w.once)
