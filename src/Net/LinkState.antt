-- ===== src/Net/LinkState.antt =====
-- include/nb/link_state.hpp and src/net/link_state.cpp: a list of neighbours' addresses, one byte each.
use cpp_tcp.Base.{
  ℕ, ◌≤◌, ◌≡◌, refl, Option, none, some, List, [], ◌∷◌, map, length, length-map, ltb, if◌then◌else◌,
  All, arith,
}
use cpp_tcp.Base.Int.{ℤ, pos, ◌≤ℤ◌}
use cpp_tcp.Base.Bytes.{byte_of, byte_of_lem}

abbrev pub max_neighbors : ℕ
max_neighbors = 119

pub record LinkState : Type 0 where
  pub neighbors : List ℕ

-- The constructor from addresses.
pub make : List ℤ → Option LinkState
make neighbors =
    if ltb max_neighbors (length neighbors)
    then none
    else some (record { neighbors = map byte_of neighbors })

pub get_neighbors : LinkState → List ℤ
get_neighbors s = map pos s.neighbors

pub pack : LinkState → List ℕ
pack s = s.neighbors

pub unpack : List ℕ → Option LinkState
unpack bytes =
    if ltb max_neighbors (length bytes) then none else some (record { neighbors = bytes })

abbrev pub IsAddress : ℤ → Type 0
IsAddress a = (pos 0 ≤ℤ a) × (a ≤ℤ pos 255)

map-pos-byte_of : (xs : List ℤ) → All IsAddress xs → map pos (map byte_of xs) ≡ xs
map-pos-byte_of [] h = refl
map-pos-byte_of (x ∷ xs) (hx, h) = rw (byte_of_lem x hx.0 hx.1, map-pos-byte_of xs h)

-- A list of at most 119 addresses from 0 to 255 can be packed, and unpacking gives back exactly
-- these neighbours in their order.
pub get_neighbors-unpack-pack :
    (xs : List ℤ)
    → All IsAddress xs
    → length xs ≤ max_neighbors
    → (s : LinkState) × (make xs ≡ some s) × (unpack (pack s) ≡ some s) × (get_neighbors s ≡ xs)
unfolding make unpack pack get_neighbors
get_neighbors-unpack-pack xs h n = (
  record { neighbors = map byte_of xs },
  ground arith,
  ground (arith, length-map byte_of xs),
  map-pos-byte_of xs h,
)
