-- ===== src/Sim/Topology/Links.antt =====
-- Lookups of edges after the topology has changed.
use cpp_tcp.Base.{
  ◌≡◌, refl, ap, sym, ◌∙◌, ◌⊎◌, inl, inr, Bool, true, false, ◌&&◌, ◌||◌, none, some, List, [], ◌∷◌,
  ◌++◌, if◌then◌else◌, Option-cases, arith,
}
use mathlib.Core.Option
use cpp_tcp.Base.Int.{ℤ, ◌==ℤ◌, ==ℤ→eq}
use cpp_tcp.Sim.Edge.{Edge, EdgeOptions, make, is_edge, set_state}
use cpp_tcp.Sim.Topology.{
  Topology, contains, remove, is_node_alive, fail_node, restart_node, find_edge, update_edge,
  get_edge, live_only, get_live_edge, change_found, change_edge, fail_edge, restart_edge,
}

-- The two nodes are the same two, in either order.
unfoldable pub same_pair : ℤ → ℤ → ℤ → ℤ → Bool
same_pair a b c d = a ==ℤ c && b ==ℤ d || a ==ℤ d && b ==ℤ c

same_pair_refl : (a b : ℤ) → same_pair a b a b ≡ true
unfolding same_pair
same_pair_refl a b = ground arith

same_pair_cases :
    (a b c d : ℤ) → same_pair a b c d ≡ true → ((a ≡ c) × (b ≡ d)) ⊎ ((a ≡ d) × (b ≡ c))
unfolding same_pair
same_pair_cases a b c d h = ground (arith, ==ℤ→eq a c, ==ℤ→eq b d, ==ℤ→eq a d, ==ℤ→eq b c)

module _ {D : Type 0} where
  is_edge_comm : (a b : ℤ) (e : Edge D) → is_edge a b e ≡ is_edge b a e
  unfolding is_edge
  is_edge_comm a b e = ground arith

  pub find_edge_comm : (a b : ℤ) (es : List (Edge D)) → find_edge a b es ≡ find_edge b a es
  unfolding find_edge
  find_edge_comm a b [] = refl
  find_edge_comm a b (e ∷ es) = rw (is_edge_comm a b e, find_edge_comm a b es)

  is_edge_ends :
      (a b : ℤ) (e : Edge D)
      → is_edge a b e ≡ true
      → ((e.a ≡ a) × (e.b ≡ b)) ⊎ ((e.a ≡ b) × (e.b ≡ a))
  unfolding is_edge
  is_edge_ends a b e h = ground (arith, ==ℤ→eq e.a a, ==ℤ→eq e.b b, ==ℤ→eq e.a b, ==ℤ→eq e.b a)

  is_edge-same_pair :
      (a b c d : ℤ) (e : Edge D) → is_edge a b e ≡ true → is_edge c d e ≡ same_pair a b c d
  unfolding is_edge same_pair
  is_edge-same_pair a b c d e h = elim (is_edge_ends a b e h) [
    | inl (p, q) ↦ rw (p, q)
    | inr (p, q) ↦ rw (p, q) (ground arith)
  ]

  same_pair-is_edge :
      (a b c d : ℤ) (e : Edge D) → same_pair a b c d ≡ true → is_edge c d e ≡ is_edge a b e
  same_pair-is_edge a b c d e h = elim (same_pair_cases a b c d h) [
    | inl (p, q) ↦ rw (p, q)
    | inr (p, q) ↦ rw (p, q) (is_edge_comm c d e)
  ]

  find_edge-same_pair :
      (a b c d : ℤ) (es : List (Edge D))
      → same_pair a b c d ≡ true
      → find_edge c d es ≡ find_edge a b es
  find_edge-same_pair a b c d es h = elim (same_pair_cases a b c d h) [
    | inl (p, q) ↦ rw (p, q)
    | inr (p, q) ↦ rw (p, q) (find_edge_comm c d es)
  ]

  same_pair-make : (a b c d : ℤ) (o : EdgeOptions D) → is_edge c d (make a b o) ≡ same_pair a b c d
  unfolding is_edge same_pair
  same_pair-make a b c d o = refl

  -- A write that keeps the ends of an edge.
  abbrev pub KeepsEnds : (Edge D → Edge D) → Type 0
  KeepsEnds f = (e : Edge D) → ((f e).a ≡ e.a) × ((f e).b ≡ e.b)

  is_edge-KeepsEnds :
      (f : Edge D → Edge D)
      → KeepsEnds f
      → (a b : ℤ) (e : Edge D) → is_edge a b (f e) ≡ is_edge a b e
  unfolding is_edge
  is_edge-KeepsEnds f k a b e = rw ((k e).0, (k e).1)

  -- A lookup after a write through a pointer sees the write exactly between the two nodes.
  find_edge-update_edge :
      (f : Edge D → Edge D)
      → KeepsEnds f
      → (a b c d : ℤ) (es : List (Edge D))
      → find_edge c d (update_edge a b f es)
        ≡ (if same_pair a b c d then Option.map f (find_edge a b es) else find_edge c d es)
  unfolding find_edge update_edge
  find_edge-update_edge f k a b c d [] = ground arith
  find_edge-update_edge f k a b c d (e ∷ es) = ground (
    arith,
    is_edge-KeepsEnds f k c d e,
    is_edge-same_pair a b c d e,
    same_pair-is_edge a b c d e,
    find_edge-update_edge f k a b c d es,
  )

  find_edge-append :
      (c d : ℤ) (es fs : List (Edge D))
      → find_edge c d (es ++ fs)
        ≡ elim (find_edge c d es) [ some e ↦ some e | none ↦ find_edge c d fs ]
  unfolding find_edge
  find_edge-append c d [] fs = refl
  find_edge-append c d (e ∷ es) fs = ground (arith, find_edge-append c d es fs)

  -- A lookup adds an edge at most between the two nodes that it is asked for.
  find_edge-get_edge :
      (defaults : EdgeOptions D) (a b c d : ℤ) (t : Topology D)
      → find_edge c d (get_edge defaults a b t).0.edges
        ≡ (if same_pair a b c d then (get_edge defaults a b t).1 else find_edge c d t.edges)
  unfolding get_edge find_edge
  find_edge-get_edge defaults a b c d t = ground (
    arith,
    find_edge-same_pair a b c d t.edges,
    find_edge-append c d t.edges (make a b defaults ∷ []),
    same_pair-make a b c d defaults,
  )

  -- After `fail_edge` or `restart_edge` a lookup between the two nodes, in either order, finds the
  -- edge that was there, or that the mode all-to-all adds, with its new state, and a lookup
  -- between any others finds what it found before.
  pub find_edge-change_edge :
      (defaults : EdgeOptions D) (a b c d : ℤ) (live : Bool) (t : Topology D)
      → find_edge c d (change_edge defaults a b live t).0.edges ≡ (
          if same_pair a b c d
          then Option.map (set_state live) (get_edge defaults a b t).1
          else find_edge c d t.edges)
  unfolding change_edge change_found
  find_edge-change_edge defaults a b c d live t = ground (
    arith,
    find_edge-get_edge defaults a b c d t,
    find_edge-get_edge defaults a b a b t,
    same_pair_refl a b,
    find_edge-update_edge (set_state live) (λ e. (refl, refl)) a b c d
        (get_edge defaults a b t).0.edges,
  )

  get_edge_frame :
      (defaults : EdgeOptions D) (a b : ℤ) (t : Topology D)
      → ((get_edge defaults a b t).0.failed_nodes ≡ t.failed_nodes)
        × ((get_edge defaults a b t).0.all_to_all ≡ t.all_to_all)
        × ((get_edge defaults a b t).1 ≡ none → t.all_to_all ≡ false)
  unfolding get_edge
  get_edge_frame defaults a b t = elim (Option-cases (find_edge a b t.edges)) [
    | inl e ↦ rw (e, get_edge) (ground arith, ground arith, λ h. ground arith)
    | inr (x, e) ↦ rw (e, get_edge) (refl, refl, λ h. cc)
  ]

  change_edge_frame :
      (defaults : EdgeOptions D) (a b : ℤ) (live : Bool) (t : Topology D)
      → ((change_edge defaults a b live t).0.failed_nodes ≡ t.failed_nodes)
        × ((change_edge defaults a b live t).0.all_to_all ≡ t.all_to_all)
  unfolding change_edge change_found
  change_edge_frame defaults a b live t = ground (arith, get_edge_frame defaults a b t)

  change_edge_found :
      (defaults : EdgeOptions D) (a b : ℤ) (live : Bool) (t : Topology D)
      → (change_edge defaults a b live t).1 ≡ true
      → (e : Edge D) × ((get_edge defaults a b t).1 ≡ some e)
  unfolding change_edge change_found
  change_edge_found defaults a b live t h = elim (Option-cases (get_edge defaults a b t).1) [
    | inl e ↦ absurd (ground arith)
    | inr r ↦ r
  ]

  module _ (defaults : EdgeOptions D) (a b : ℤ) (t : Topology D) where
    get_live_edge_missing :
        find_edge a b t.edges ≡ none
        → t.all_to_all ≡ false
        → (get_live_edge defaults a b t).1 ≡ none
    unfolding get_live_edge get_edge live_only
    get_live_edge_missing h k = ground arith

    get_live_edge_dead :
        (e : Edge D)
        → find_edge a b t.edges ≡ some e
        → e.live ≡ false
        → (get_live_edge defaults a b t).1 ≡ none
    unfolding get_live_edge get_edge live_only
    get_live_edge_dead e h k = ground arith

    get_live_edge_live :
        (e : Edge D)
        → find_edge a b t.edges ≡ some e
        → e.live ≡ true
        → is_node_alive a t ≡ true
        → is_node_alive b t ≡ true
        → (get_live_edge defaults a b t).1 ≡ some e
    unfolding get_live_edge get_edge live_only
    get_live_edge_live e h k la lb = ground arith

  -- After `fail_edge` there is no live link between the two nodes, asked for in either order, also
  -- where every pair of nodes is linked by default.
  get_live_edge-fail_edge :
      (defaults : EdgeOptions D) (a b c d : ℤ) (t : Topology D)
      → same_pair a b c d ≡ true
      → (get_live_edge defaults c d (fail_edge defaults a b t).0).1 ≡ none
  unfolding fail_edge
  get_live_edge-fail_edge defaults a b c d t h =
      let u = (change_edge defaults a b false t).0 in
      elim (Option-cases (get_edge defaults a b t).1) [
        | inl e ↦
            get_live_edge_missing defaults c d u
              (ground (arith, find_edge-change_edge defaults a b c d false t))
              ((change_edge_frame defaults a b false t).1 ∙ (get_edge_frame defaults a b t).2 e)
        | inr (x, e) ↦
            get_live_edge_dead defaults c d u (set_state false x)
              (ground (arith, find_edge-change_edge defaults a b c d false t)) refl
      ]

  -- After a `restart_edge` that found an edge, there is a live link between the two nodes, asked for
  -- in either order, if neither node has failed.
  pub get_live_edge-restart_edge :
      (defaults : EdgeOptions D) (a b c d : ℤ) (t : Topology D)
      → same_pair a b c d ≡ true
      → (restart_edge defaults a b t).1 ≡ true
      → is_node_alive c t ≡ true
      → is_node_alive d t ≡ true
      → (e : Edge D) × ((get_live_edge defaults c d (restart_edge defaults a b t).0).1 ≡ some e)
        × (e.live ≡ true)
  unfolding restart_edge is_node_alive
  get_live_edge-restart_edge defaults a b c d t h found lc ld =
      let u = (change_edge defaults a b true t).0 in
      let (x, e) = change_edge_found defaults a b true t found in
      let f = change_edge_frame defaults a b true t in
      (
        set_state true x,
        get_live_edge_live defaults c d u (set_state true x)
            (ground (arith, find_edge-change_edge defaults a b c d true t)) refl (rw (f.0) lc)
            (rw (f.0) ld),
        refl,
      )

contains-remove :
    (a b : ℤ) (xs : List ℤ) → contains b (remove a xs) ≡ (if a ==ℤ b then false else contains b xs)
contains-remove a b [] = ground arith
contains-remove a b (x ∷ xs) = ground (arith, contains-remove a b xs)

contains_eq : (a b : ℤ) (xs : List ℤ) → (a ==ℤ b) ≡ true → contains b xs ≡ contains a xs
contains_eq a b xs h = ap (λ c. contains c xs) (sym (==ℤ→eq a b h))

-- `fail_node` fails that node and no other, and `restart_node` brings back that node and no other.
pub is_node_alive_after :
    {D : Type 0} (a b : ℤ) (t : Topology D)
    → (is_node_alive b (fail_node a t) ≡ (if a ==ℤ b then false else is_node_alive b t))
      × (is_node_alive b (restart_node a t) ≡ (if a ==ℤ b then true else is_node_alive b t))
unfolding is_node_alive fail_node restart_node
is_node_alive_after a b t =
    ground (arith, contains-remove a b t.failed_nodes, contains_eq a b t.failed_nodes)
