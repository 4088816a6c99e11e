-- ===== src/Program/Replay.antt =====
-- A report is minted once, and a revoked device mints no more, whatever instructions come between.
use mathlib.Core.Path.{subst}
use enrg.Prelude.{
  ℕ, ◌≤◌, ◌≡◌, ◌≢◌, sym, ◌∙◌, arith, true, ==_refl, WhenOn-elim, Option, none, some, List, ok,
}
use enrg.Solana.{Pubkey, Bytes, Runtime}
use enrg.Messages.{OracleReport}
use enrg.Device.{EnergyProducer}
use enrg.Mint.{mint_energy}
use enrg.Mint.Admission.{admit_sound}
use enrg.Mint.Effects.{mint_energy-IsSettled, roll_month-same}
use enrg.Mint.History.{admitted, nonce_rises}
use enrg.Program.Accounts.{Accounts, Ledger, Flow, store}
use enrg.Program.Minting.{MintAccounts, load_context, load_state, store_state, run_mint}
use enrg.Program.{Call, run}
use enrg.Program.Runs.{Run, Ends, gives, Ends->>=, Ends-follow, Ends-ok}
use enrg.Program.History.{Anything, load_state-found, records-AreKept}
use enrg.Program.Records.{IsKept}

-- A record whose nonce is used up to `n`.
abbrev HasUsed : ℕ → Option EnergyProducer → Type 0
HasUsed n none = ⊥
HasUsed n (some p) = n ≤ p.nonce

HasUsed-IsKept : (n : ℕ) (o o' : Option EnergyProducer) → HasUsed n o → IsKept o o' → HasUsed n o'
HasUsed-IsKept n none o' h k = elim h [ ]
HasUsed-IsKept n (some p) none h k = elim k [ ]
HasUsed-IsKept n (some p) (some q) h k = omega (arith, k.nonce)

at_own_key :
    (m : Accounts EnergyProducer) (k : Pubkey) (p : EnergyProducer) → store m k p k ≡ some p
at_own_key m k p = rw (==_refl k)

run_mint-HasUsed :
    (rt : Runtime) (derive : List Bytes → Pubkey) (l : Ledger) (signer : Pubkey) (a : MintAccounts)
    (r : OracleReport)
    → Ends
        (λ z. HasUsed r.nonce (z.0.devices.producers a.producer))
        (run_mint rt derive l signer a r)
unfolding run_mint store_state
run_mint-HasUsed rt derive l signer a r = Ends->>= (load_context rt l signer a) _ (λ c _.
    Ends->>= (load_state rt derive l a) _ (λ s _.
      Ends->>= (mint_energy rt c s r) _ (λ (s', split) e.
        let now = mint_energy-IsSettled rt c s r s' split e in
        let written = at_own_key l.devices.producers a.producer s'.producer in
        gives _ (subst (HasUsed r.nonce) (sym written) (omega (arith, now.is_used))))))

run_mint-refused :
    (rt : Runtime) (derive : List Bytes → Pubkey) (l : Ledger) (signer : Pubkey) (a : MintAccounts)
    (r : OracleReport) (n : ℕ)
    → HasUsed n (l.devices.producers a.producer)
    → r.nonce ≤ n
    → Ends (λ z. ⊥) (run_mint rt derive l signer a r)
unfolding run_mint
run_mint-refused rt derive l signer a r n used old = Ends->>= (load_context rt l signer a) _ (λ c _.
    Ends-follow (load_state rt derive l a) _ (load_state-found rt derive l a) (λ s found.
      Ends->>= (mint_energy rt c s r) _ (λ z e.
        let reached = subst (HasUsed n) found used in
        absurd (omega (arith, reached, nonce_rises rt c s r z e)))))

-- After a report was minted, and any successful instructions after that, no mint on the same
-- producer account succeeds with a report whose nonce is not above the first one's, whoever signs
-- it and whatever the other accounts are.
pub report_is_minted_once :
    (derive : List Bytes → Pubkey) (rt rt' : Runtime) (l m out : Ledger) (signer signer' : Pubkey)
    (a b : MintAccounts) (r s : OracleReport) (flow : Flow) (minted burned : ℕ) (z : Ledger × Flow)
    → run rt derive l signer (Call.mint_energy a r) ≡ ok (m, flow)
    → Run Anything derive m minted burned out
    → b.producer ≡ a.producer
    → s.nonce ≤ r.nonce
    → run rt' derive out signer' (Call.mint_energy b s) ≢ ok z
unfolding run
report_is_minted_once derive rt rt' l m out signer signer' a b r s flow minted burned z h between
      same old again =
    let used = Ends-ok _ (m, flow) (run_mint-HasUsed rt derive l signer a r) h in
    let kept = (records-AreKept derive m out minted burned between).at a.producer in
    let still = HasUsed-IsKept r.nonce _ _ used kept in
    let there = subst (λ k. HasUsed r.nonce (out.devices.producers k)) (sym same) still in
    Ends-ok _ z (run_mint-refused rt' derive out signer' b s r.nonce there old) again

-- A record that is revoked.
abbrev pub IsRevoked : Option EnergyProducer → Type 0
IsRevoked none = ⊥
IsRevoked (some p) = p.revoked ≡ true

IsRevoked-IsKept : (o o' : Option EnergyProducer) → IsRevoked o → IsKept o o' → IsRevoked o'
IsRevoked-IsKept none o' h k = elim h [ ]
IsRevoked-IsKept (some p) none h k = elim k [ ]
IsRevoked-IsKept (some p) (some q) h k = WhenOn-elim k.final h

run_mint-revoked :
    (rt : Runtime) (derive : List Bytes → Pubkey) (l : Ledger) (signer : Pubkey) (a : MintAccounts)
    (r : OracleReport)
    → IsRevoked (l.devices.producers a.producer)
    → Ends (λ z. ⊥) (run_mint rt derive l signer a r)
unfolding run_mint
run_mint-revoked rt derive l signer a r revoked = Ends->>= (load_context rt l signer a) _ (λ c _.
    Ends-follow (load_state rt derive l a) _ (load_state-found rt derive l a) (λ s found.
      Ends->>= (mint_energy rt c s r) _ (λ z e.
        let dead = subst IsRevoked found revoked in
        let (authentic, _, _) = admit_sound rt c s r (admitted rt c s r z e) in
        let (_, _, _, _, same) = roll_month-same s.producer rt.now in
        let live = sym same ∙ authentic.is_live in cc (dead, live))))

-- When the record of a device is revoked, then no mint on it succeeds after any successful
-- instructions.
pub revoked_never_mints :
    (derive : List Bytes → Pubkey) (rt : Runtime) (l out : Ledger) (signer : Pubkey)
    (a : MintAccounts) (r : OracleReport) (minted burned : ℕ) (z : Ledger × Flow)
    → IsRevoked (l.devices.producers a.producer)
    → Run Anything derive l minted burned out
    → run rt derive out signer (Call.mint_energy a r) ≢ ok z
unfolding run
revoked_never_mints derive rt l out signer a r minted burned z revoked between again =
    let kept = (records-AreKept derive l out minted burned between).at a.producer in
    let still = IsRevoked-IsKept _ _ revoked kept in
    Ends-ok _ z (run_mint-revoked rt derive out signer a r still) again
