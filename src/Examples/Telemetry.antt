-- ===== src/Examples/Telemetry.antt =====
-- Tests and witnesses of the collector.
use strym_core.Common.{ℕ, ◌≡◌, refl, some, List, [], ◌∷◌}
use strym_core.Telemetry.Ring.{QosRing, new, len, iter, collect}
use strym_core.Telemetry.Recent.History.{push_in_turn, push_in_turn-new}

-- Five samples in a ring of three.
abbrev five : List ℕ
five = 1 ∷ 2 ∷ 3 ∷ 4 ∷ 5 ∷ []

push_in_turn-new_example :
    (s : QosRing ℕ) × (push_in_turn (new 3) five ≡ some s)
    × ((iter s ≡ some (3 ∷ 4 ∷ 5 ∷ [])) × (len s ≡ 3))
push_in_turn-new_example = push_in_turn-new 3 five

abbrev wrapped : QosRing ℕ
wrapped = record { samples = 4 ∷ 5 ∷ 3 ∷ []; capacity = 3; next = 2; filled = 3 }

wrapped_order : iter wrapped ≡ some (3 ∷ 4 ∷ 5 ∷ [])
unfolding iter collect
wrapped_order = refl
