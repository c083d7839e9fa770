-- ===== src/Orbits/Tests.antt =====
-- The orbits of one permutation, and the theorem applied to it.
use sat_symmetry.Prelude.{◌≡◌, some, [], ◌∷◌}
use sat_symmetry.Orbits.{Connected, Classes, members, assign}
use sat_symmetry.Orbits.Classes.{Assigned, assign-Assigned}
use sat_symmetry.Examples.{swapping, rotating}

abbrev in_order : Classes → Classes
in_order classes = classes

assign-Assigned_example :
    (s : Connected) × (classes : Classes) × (assign in_order (swapping ∷ rotating ∷ [])
      ≡ some (record { symmetrics = s.symmetrics; orbits = members (in_order classes) }))
    × Assigned (swapping ∷ rotating ∷ []) s classes
assign-Assigned_example = assign-Assigned in_order (swapping ∷ rotating ∷ [])
