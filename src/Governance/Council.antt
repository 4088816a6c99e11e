-- ===== src/Governance/Council.antt =====
-- validate_members against what it is for: a council of three to five different members.
use enrg.Prelude.{
  ◌≤◌, ◌≡◌, ◌↔◌, refl, arith, Bool, true, not, ◌&&◌, List, [], ◌∷◌, length, if◌then◌else◌, contains,
  distinct, push, contains-push, ok, err, code, ErrorCode,
}
use enrg.Constants.{governance_member_max, governance_min_members}
use enrg.Solana.{Pubkey}
use enrg.Governance.{no_duplicate, validate_members}

-- No member of the list is in the slice before it.
unfoldable pub fresh : List Pubkey → List Pubkey → Bool
unfolding contains
fresh seen [] = true
fresh seen (m ∷ ms) = not (contains m seen) && fresh seen ms

fresh-push :
    (seen ms : List Pubkey) (m : Pubkey)
    → fresh (push seen m) ms ≡ not (contains m ms) && fresh seen ms
unfolding fresh contains
fresh-push seen [] m = refl
fresh-push seen (k ∷ ms) m = ground (arith, fresh-push seen ms m, contains-push k m seen)

fresh_start : (ms : List Pubkey) → fresh [] ms ≡ true
unfolding fresh contains
fresh_start [] = refl
fresh_start (m ∷ ms) = fresh_start ms

-- The loop of the source, with the slice that grows, is the test for repetitions.
no_duplicate-distinct :
    (seen ms : List Pubkey)
    → no_duplicate seen ms
      ≡ (if fresh seen ms && distinct ms then ok tt else err (code ErrorCode.duplicate_member))
unfolding no_duplicate fresh distinct
no_duplicate-distinct seen [] = refl
no_duplicate-distinct seen (m ∷ ms) =
    ground (arith, no_duplicate-distinct (push seen m) ms, fresh-push seen ms m)

-- Three to five members, none twice.
pub record IsCouncil (members : List Pubkey) : Type 0 where
  enough : governance_min_members ≤ length members
  few : length members ≤ governance_member_max
  different : distinct members ≡ true

-- A list of members is let through exactly when it has three to five members and none of them
-- twice.
pub validate_members-IsCouncil :
    (members : List Pubkey) → (validate_members members ≡ ok tt) ↔ IsCouncil members
unfolding validate_members
validate_members-IsCouncil members =
    let loop = no_duplicate-distinct [] members in
    let start = fresh_start members in
    (
      λ valid. record { enough = ground arith; few = ground arith; different = ground arith },
      λ c. let a = c.enough in let b = c.few in let d = c.different in ground arith,
    )
