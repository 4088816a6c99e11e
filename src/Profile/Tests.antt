-- ===== src/Profile/Tests.antt =====
-- A profile whose rated power is set once.
use enrg.Prelude.{◌≡◌, refl, [], ◌∷◌, ok}
use enrg.Prelude.Int.{pos}
use enrg.Samples.{a_profile}
use enrg.Profile.{EnergyProfile, decayed, update_metadata}

abbrev moved : EnergyProfile
moved = record a_profile { location = 1 ∷ [] }

moves : update_metadata a_profile 100_000 [] (1 ∷ []) ≡ ok moved
unfolding update_metadata
moves = refl

half_decayed : decayed 1_000 (pos 1_296_000) 20 ≡ 520
unfolding decayed
half_decayed = refl
