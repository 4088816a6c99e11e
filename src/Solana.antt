-- ===== src/Solana.antt =====
-- What the programs use of Solana, Anchor and the token program, none of which is under the
-- repository's sources. An address is a number, its 32 bytes in little-endian order. The runtime
-- is a record of functions that the handlers take as an argument.
use Prim.Native.Char.{code}
use Prim.Native.String.{String}
use enrg.Prelude.{
  ℕ, Bool, true, ◌&&◌, ◌==◌, if◌then◌else◌, Option, none, some, List, [], ◌∷◌, ◌≡◌, refl, Result,
  ok, err, framework,
}
use enrg.Prelude.Int.{ℤ}

abbrev pub Pubkey : Type 0
Pubkey = ℕ

-- `Pubkey::default()`
abbrev pub default_key : Pubkey
default_key = 0

abbrev pub Bytes : Type 0
Bytes = List ℕ

-- The bytes of an ASCII literal.
abbrev pub codes : String → Bytes
codes String.[] = []
codes (String.◌∷◌ c s) = code c ∷ codes s

-- `[0u8; 32]`
abbrev pub zero_hash : Bytes
zero_hash =
    0 ∷ 0 ∷ 0 ∷ 0 ∷ 0 ∷ 0 ∷ 0 ∷ 0 ∷ 0 ∷ 0 ∷ 0 ∷ 0 ∷ 0 ∷ 0 ∷ 0 ∷ 0 ∷ 0 ∷ 0 ∷ 0 ∷ 0 ∷ 0 ∷ 0 ∷ 0 ∷ 0
    ∷ 0 ∷ 0 ∷ 0 ∷ 0 ∷ 0 ∷ 0 ∷ 0 ∷ 0 ∷ []

-- `iter().all(|&b| b == 0)`
unfoldable pub all_zero : Bytes → Bool
all_zero [] = true
all_zero (b ∷ bs) = (b == 0) && all_zero bs

-- The constraint `init`: the account must not exist.
abbrev pub vacant {ℓ} : {A : Type ℓ} → Option A → Result (Unit {0})
vacant none = ok tt
vacant (some _) = err (framework 0)

-- A constraint without an error of the program: Anchor's own code, 2001 for `has_one` and 2012 for
-- `address`.
abbrev pub constraint : Bool → ℕ → Result (Unit {0})
constraint b n = if b then ok tt else err (framework n)

-- A constraint with `seeds`: the account stands at the address that they derive.
abbrev pub derived : Pubkey → Pubkey → Result (Unit {0})
derived key address = if key == address then ok tt else err (framework 0)

-- A token account of the token program.
pub record TokenAccount : Type 0 where
  pub key : Pubkey
  pub mint : Pubkey
  pub owner : Pubkey
  pub amount : ℕ

-- A call into the token program or the system program.
pub data Cpi : Type 0 where
  mint_to : Pubkey → ℕ → Cpi
  token_transfer : Pubkey → Pubkey → ℕ → Cpi
  burn : Pubkey → ℕ → Cpi
  system_transfer : Pubkey → Pubkey → ℕ → Cpi

pub record Instruction : Type 0 where
  pub program_id : Pubkey
  pub body : Bytes

-- What `get_instruction_relative` returns.
pub data Relative : Type 0 where
  found : Instruction → Relative
  unsupported_sysvar : Relative
  out_of_range : Relative

pub record Runtime : Type 0 where
  -- `Clock::get()?.unix_timestamp`
  pub now : ℤ
  -- `Pubkey::find_program_address(seeds, program_id).0` for the id of enrg-mvp
  pub find_program_address : List Bytes → Pubkey
  -- `solana_sha256_hasher::hash`
  pub sha256 : Bytes → Bytes
  -- whether a call into another program succeeds
  pub invoke : Cpi → Result (Unit {0})
  -- the instruction so many places before the current one
  pub instruction_back : ℕ → Relative

pub vacant-none {ℓ} : {A : Type ℓ} (o : Option A) → vacant o ≡ ok tt → o ≡ none
vacant-none none h = refl
vacant-none (some a) h = cc
