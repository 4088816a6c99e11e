-- ===== src/Program/Runs.antt =====
-- Runs of the program: instructions that succeed one after the other, and how a handler that is a
-- chain of steps is followed to its end.
use mathlib.Core.Path.{subst}
use enrg.Prelude.{
  ℕ, ◌+◌, ◌≡◌, refl, Bool, true, false, ◌==◌, if◌then◌else◌, Option, none, some, List, Result, ok,
  err, Error, ◌>>=◌, ok-injective,
}
use enrg.Solana.{Pubkey, Bytes, Runtime}
use enrg.Program.Accounts.{Accounts, Ledger, Flow, load, store, store_if}
use enrg.Program.Minting.{passed, store_passed}
use enrg.Program.{Call, run}

-- Instructions by whatever signers, each at a ledger that meets a condition, with what they minted
-- and burned. The addresses under the other program are the same throughout.
pub data Run (Allowed : Ledger → Type 0) (derive : List Bytes → Pubkey) (l : Ledger)
    : ℕ → ℕ → Ledger → Type 0 where
  stays : Run Allowed derive l 0 0 l
  steps :
      (rt : Runtime) (signer : Pubkey) (c : Call) {m out : Ledger} {flow : Flow} {minted burned : ℕ}
      → Run Allowed derive l minted burned m
      → Allowed m
      → run rt derive m signer c ≡ ok (out, flow)
      → Run Allowed derive l (minted + flow.minted) (burned + flow.burned) out

-- A result that is an error, or has a value as described.
pub data Ends {A : Type 0} (P : A → Type 0) : Result A → Type 0 where
  fails : (e : Error) → Ends P (err e)
  gives : (a : A) → P a → Ends P (ok a)

module _ {A B : Type 0} {P : B → Type 0} where
  pub Ends->>= :
      (m : Result A) (k : A → Result B) → ((a : A) → m ≡ ok a → Ends P (k a)) → Ends P (m >>= k)
  Ends->>= (err e) k next = fails e
  Ends->>= (ok a) k next = next a refl

  -- The same for a step of which only a description is known.
  pub Ends-follow :
      {Q : A → Type 0} (m : Result A) (k : A → Result B)
      → Ends Q m
      → ((a : A) → Q a → Ends P (k a))
      → Ends P (m >>= k)
  Ends-follow m k (fails e) next = fails e
  Ends-follow m k (gives a q) next = next a q

pub Ends-from : {A : Type 0} {P : A → Type 0} (m : Result A) → ((a : A) → m ≡ ok a → P a) → Ends P m
Ends-from (err e) all = fails e
Ends-from (ok a) all = gives a (all a refl)

pub Ends-map :
    {A : Type 0} {P Q : A → Type 0} (m : Result A) → Ends P m → ((a : A) → P a → Q a) → Ends Q m
Ends-map m (fails e) weaker = fails e
Ends-map m (gives a p) weaker = gives a (weaker a p)

pub Ends-ok : {A : Type 0} {P : A → Type 0} (m : Result A) (a : A) → Ends P m → m ≡ ok a → P a
Ends-ok m a (fails e) h = cc
Ends-ok {P = P} m a (gives b p) h = subst P (ok-injective b a h) p

-- What holds of an account if it is there, and of every account of a map.
abbrev pub Holds : {A : Type 0} → (A → Type 0) → Option A → Type 0
Holds P none = Unit
Holds P (some a) = P a

pub record AllOf {A : Type 0} (P : A → Type 0) (m : Accounts A) : Type 0 where
  pub holds : (k : Pubkey) → Holds P (m k)

chosen-Holds :
    {A : Type 0} (P : A → Type 0) (b : Bool) (a : A) (o : Option A)
    → P a
    → Holds P o
    → Holds P (if b then some a else o)
chosen-Holds P true a o p h = p
chosen-Holds P false a o p h = h

module _ {A : Type 0} {P : A → Type 0} where
  pub AllOf-store :
      (m : Accounts A) (key : Pubkey) (a : A) → AllOf P m → P a → AllOf P (store m key a)
  AllOf-store m key a h p = record { holds = λ k. chosen-Holds P (k == key) a (m k) p (h.holds k) }

  pub AllOf-store_if :
      (m : Accounts A) (key : Pubkey) (o : Option A)
      → AllOf P m
      → Holds P o
      → AllOf P (store_if m key o)
  AllOf-store_if m key none h p = h
  AllOf-store_if m key (some a) h p = AllOf-store m key a h p

  pub AllOf-store_passed :
      (m : Accounts A) (key : Option Pubkey) (o : Option A)
      → AllOf P m
      → Holds P o
      → AllOf P (store_passed m key o)
  AllOf-store_passed m none o h p = h
  AllOf-store_passed m (some key) o h p = AllOf-store_if m key o h p

  pub load-Holds : (o : Option A) → Holds P o → Ends P (load o)
  load-Holds none h = fails _
  load-Holds (some a) h = gives a h

  pub passed-Holds :
      (m : Accounts A) (key : Option Pubkey) → AllOf P m → Ends (Holds P) (passed m key)
  passed-Holds m none h = gives none tt
  passed-Holds m (some key) h =
      Ends-follow (load (m key)) _ (load-Holds (m key) (h.holds key)) (λ a p. gives (some a) p)
