-- ===== src/Base/Assoc.antt =====
-- `std::unordered_map` as an association list over a Boolean test of the keys. The source's loops
-- over a map go in an order that the standard leaves open; here it is the order of the list.
use cpp_tcp.Base.Tests.{if◌then◌else◌}
use mathlib.Core.Bool.{Bool}
use mathlib.Core.Option.{Option, none, some}
use mathlib.Core.List.{List, [], ◌∷◌}

module _ {ℓ κ} {K : Type ℓ} {V : Type κ} where
  -- map.find(k)
  abbrev pub find : (K → K → Bool) → K → List (K × V) → Option V
  find eqb k [] = none
  find eqb k ((j, v) ∷ m) = if eqb j k then some v else find eqb k m

  -- map[k] = v
  abbrev pub insert : (K → K → Bool) → K → V → List (K × V) → List (K × V)
  insert eqb k v [] = (k, v) ∷ []
  insert eqb k v ((j, w) ∷ m) = if eqb j k then (j, v) ∷ m else (j, w) ∷ insert eqb k v m

  -- map.erase(k)
  abbrev pub erase : (K → K → Bool) → K → List (K × V) → List (K × V)
  erase eqb k [] = []
  erase eqb k ((j, w) ∷ m) = if eqb j k then m else (j, w) ∷ erase eqb k m

  -- The loop that erases every entry whose value passes the test.
  abbrev pub erase_if : (V → Bool) → List (K × V) → List (K × V)
  erase_if p [] = []
  erase_if p ((j, w) ∷ m) = if p w then erase_if p m else (j, w) ∷ erase_if p m
