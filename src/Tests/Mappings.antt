-- ===== src/Tests/Mappings.antt =====
-- An example for the owners of mappings.
use slow_scanner.Prelude.{refl, some, []}
use slow_scanner.Maps.{Objects, construct, destroy, make, drop, here, next}
use slow_scanner.Maps.Ownership.{Owned, Reach-Owned}

abbrev no_objects : Objects
no_objects = record { sinks = []; mapped = [] }

-- One object, with mapping 7.
abbrev one_object : Objects
one_object = construct (some 7) no_objects

Reach-Owned_example : Owned (destroy [] (some 7) [] one_object)
unfolding construct
Reach-Owned_example =
    Reach-Owned one_object (destroy [] (some 7) [] one_object)
      (next here (make no_objects (some 7) refl)) (drop one_object [] [] (some 7) refl)
