-- ===== src/Emu/Trawler/Table.antt =====
-- The table of the nodes as the Trawler runs: no two nodes are taken for one another.
use cpp_tcp.Base.{◌≡◌, refl, Bool, true, false, not, ◌&&◌, ◌||◌, none, List, [], ◌∷◌, ◌++◌, arith}
use cpp_tcp.Base.Int.{ℤ, pos, ltb_ℤ, leb_ℤ, ◌==ℤ◌}
use cpp_tcp.Base.Assoc.{insert, erase}
use cpp_tcp.Base.Text.{bytes_eq}
use cpp_tcp.Emu.Trawler.{EmulatedNode, addr_eq, get_emulated_node, port_conflict}
use cpp_tcp.Emu.Trawler.Idents.{Ident, ident, idents}

-- Two nodes with one address, or with one host and port.
abbrev pub clash : Ident → Ident → Bool
clash i j = i.key ==ℤ j.key || (bytes_eq i.ip j.ip && i.port ==ℤ j.port)

abbrev pub apart : Ident → List Ident → Bool
apart i [] = true
apart i (j ∷ js) = not (clash i j) && apart i js

-- A node stands at its own address, which is from 0 to 254, with a port that may be used.
abbrev pub is_entry : Ident → Bool
is_entry i =
    i.addr ==ℤ i.key && leb_ℤ (pos 0) i.key && ltb_ℤ i.key (pos 255) && leb_ℤ (pos 1024) i.port

abbrev pub is_table : List Ident → Bool
is_table [] = true
is_table (i ∷ is) = is_entry i && apart i is && is_table is

-- A node that may be added.
abbrev pub avoids : List Ident → Ident → Bool
avoids [] j = true
avoids (i ∷ is) j = not (clash i j) && avoids is j

apart_append :
    (i : Ident) (js : List Ident) (j : Ident)
    → apart i js ≡ true
    → clash i j ≡ false
    → apart i (js ++ (j ∷ [])) ≡ true
apart_append i [] j h k = ground arith
apart_append i (x ∷ js) j h k = ground (arith, apart_append i js j)

pub is_table_append :
    (is : List Ident) (j : Ident)
    → is_table is ≡ true
    → is_entry j ≡ true
    → avoids is j ≡ true
    → is_table (is ++ (j ∷ [])) ≡ true
is_table_append [] j h e k = ground arith
is_table_append (i ∷ is) j h e k = ground (arith, is_table_append is j, apart_append i is j)

pub avoids_new :
    (nodes : List (ℤ × EmulatedNode)) (key : ℤ) (n : EmulatedNode)
    → get_emulated_node key nodes ≡ none
    → port_conflict n.ip_address n.udp_port nodes ≡ false
    → avoids (idents nodes) (ident key n) ≡ true
unfolding port_conflict
avoids_new [] key n e h = refl
avoids_new ((a, k) ∷ nodes) key n e h = ground (arith, avoids_new nodes key n)

pub idents-insert_new :
    (nodes : List (ℤ × EmulatedNode)) (key : ℤ) (n : EmulatedNode)
    → get_emulated_node key nodes ≡ none
    → idents (insert addr_eq key n nodes) ≡ idents nodes ++ (ident key n ∷ [])
idents-insert_new [] key n e = refl
idents-insert_new ((a, k) ∷ nodes) key n e = ground (arith, idents-insert_new nodes key n)

apart-erase :
    (i : Ident) (key : ℤ) (nodes : List (ℤ × EmulatedNode))
    → apart i (idents nodes) ≡ true
    → apart i (idents (erase addr_eq key nodes)) ≡ true
apart-erase i key [] h = refl
apart-erase i key ((a, k) ∷ nodes) h = ground (arith, apart-erase i key nodes)

pub is_table-erase :
    (key : ℤ) (nodes : List (ℤ × EmulatedNode))
    → is_table (idents nodes) ≡ true
    → is_table (idents (erase addr_eq key nodes)) ≡ true
is_table-erase key [] h = refl
is_table-erase key ((a, k) ∷ nodes) h =
    ground (arith, is_table-erase key nodes, apart-erase (ident a k) key nodes)
