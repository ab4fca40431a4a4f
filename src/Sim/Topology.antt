-- ===== src/Sim/Topology.antt =====
-- include/nb/topology.hpp and src/sim/topology.cpp: the edges that are declared, and the nodes that
-- have failed. A pointer to an edge stands for the first edge between its two nodes, since edges are
-- added at the end and never removed. The operations take the topology that `instance_of` gives; what
-- `changeEdge` prints is left out.
pub mod Links
use cpp_tcp.Base.{
  Bool, true, false, not, ◌&&◌, ◌||◌, Option, none, some, List, [], ◌∷◌, ◌++◌, if◌then◌else◌,
}
use cpp_tcp.Base.Int.{ℤ, ◌==ℤ◌}
use cpp_tcp.Sim.Edge.{Edge, EdgeOptions, make, is_edge, set_state, set_options}

pub record Topology (D : Type 0) : Type 0 where
  pub edges : List (Edge D)
  pub failed_nodes : List ℤ
  pub all_to_all : Bool

-- failedNodes_.find(node) != end
abbrev pub contains : ℤ → List ℤ → Bool
contains a [] = false
contains a (x ∷ xs) = x ==ℤ a || contains a xs

-- failedNodes_.erase(a)
abbrev pub remove : ℤ → List ℤ → List ℤ
remove a [] = []
remove a (x ∷ xs) = if x ==ℤ a then remove a xs else x ∷ remove a xs

module _ {D : Type 0} where
  -- The constructor.
  unfoldable pub init : Bool → Topology D
  init all_to_all = record { edges = []; failed_nodes = []; all_to_all = all_to_all }

  -- The singleton: it is made by the first call, whose mode counts, and by the first one after a reset.
  unfoldable pub instance_of : Bool → Option (Topology D) → Topology D
  instance_of all_to_all (some t) = t
  instance_of all_to_all none = init all_to_all

  abbrev pub reset : Option (Topology D) → Option (Topology D)
  reset t = none

  unfoldable pub is_node_alive : ℤ → Topology D → Bool
  is_node_alive node t = not (contains node t.failed_nodes)

  unfoldable pub fail_node : ℤ → Topology D → Topology D
  fail_node a t =
      if contains a t.failed_nodes then t else record t { failed_nodes = a ∷ t.failed_nodes }

  unfoldable pub restart_node : ℤ → Topology D → Topology D
  restart_node a t = record t { failed_nodes = remove a t.failed_nodes }

  -- The loop of `getEdge`: the first edge between the two nodes.
  unfoldable pub find_edge : ℤ → ℤ → List (Edge D) → Option (Edge D)
  find_edge a b [] = none
  find_edge a b (e ∷ es) = if is_edge a b e then some e else find_edge a b es

  -- A write through the pointer to that edge.
  unfoldable pub update_edge : ℤ → ℤ → (Edge D → Edge D) → List (Edge D) → List (Edge D)
  update_edge a b f [] = []
  update_edge a b f (e ∷ es) = if is_edge a b e then f e ∷ es else e ∷ update_edge a b f es

  -- `EdgeOptions{}` is an argument. In the mode all-to-all a missing edge is added on lookup.
  unfoldable pub get_edge : EdgeOptions D → ℤ → ℤ → Topology D → Topology D × Option (Edge D)
  get_edge defaults a b t = elim (find_edge a b t.edges) [
    | some e ↦ (t, some e)
    | none ↦
        if t.all_to_all
        then (record t { edges = t.edges ++ (make a b defaults ∷ []) }, some (make a b defaults))
        else (t, none)
  ]

  unfoldable pub live_only : ℤ → ℤ → Topology D × Option (Edge D) → Topology D × Option (Edge D)
  live_only a b (t, none) = (t, none)
  live_only a b (t, some e) =
      if not e.live || not (is_node_alive a t) || not (is_node_alive b t)
      then (t, none)
      else (t, some e)

  unfoldable pub get_live_edge : EdgeOptions D → ℤ → ℤ → Topology D → Topology D × Option (Edge D)
  get_live_edge defaults a b t = live_only a b (get_edge defaults a b t)

  -- The edge that `get_edge` found, or a new one.
  unfoldable pub set_or_add : ℤ → ℤ → EdgeOptions D → Topology D × Option (Edge D) → Topology D
  set_or_add a b options (t, some e) = record t {
    edges = update_edge a b (set_options options) t.edges;
  }
  set_or_add a b options (t, none) = record t { edges = t.edges ++ (make a b options ∷ []) }

  unfoldable pub new_edge : EdgeOptions D → ℤ → ℤ → EdgeOptions D → Topology D → Topology D
  new_edge defaults a b options t = set_or_add a b options (get_edge defaults a b t)

  unfoldable pub change_found : ℤ → ℤ → Bool → Topology D × Option (Edge D) → Topology D × Bool
  change_found a b live (t, some e) =
      (record t { edges = update_edge a b (set_state live) t.edges }, true)
  change_found a b live (t, none) = (t, false)

  unfoldable pub change_edge : EdgeOptions D → ℤ → ℤ → Bool → Topology D → Topology D × Bool
  change_edge defaults a b live t = change_found a b live (get_edge defaults a b t)

  unfoldable pub fail_edge : EdgeOptions D → ℤ → ℤ → Topology D → Topology D × Bool
  unfolding change_edge
  fail_edge defaults a b t = change_edge defaults a b false t

  unfoldable pub restart_edge : EdgeOptions D → ℤ → ℤ → Topology D → Topology D × Bool
  unfolding change_edge
  restart_edge defaults a b t = change_edge defaults a b true t
