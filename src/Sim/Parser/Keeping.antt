-- ===== src/Sim/Parser/Keeping.antt =====
-- A property of the state that every hook keeps is kept by every line and every script.
use cpp_tcp.Base.{
  ℕ, Bool, true, false, not, Option, none, some, List, [], ◌∷◌, Bool-cases, inl, inr, if◌then◌else◌,
}
use cpp_tcp.Base.Int.{ℤ, minus_one, ◌==ℤ◌}
use cpp_tcp.Base.Double.{DoubleOps}
use cpp_tcp.Base.Text.{TextOps, split_spaces}
use cpp_tcp.Sim.Edge.{EdgeOptions}
use cpp_tcp.Sim.Parser.{
  Command, Hooks, EdgeCommand, skip_line, read_edge, read_pair, parse_time, create_edge, fail,
  restart, parse_edge, parse_fail, parse_restart, echo, after_time, parse_common_cmds,
  parse_command, parse_line, parse_lines, parse_remainder,
}

pub record Keeps {D S : Type 0} (P : S → Type 0) (hooks : Hooks D S) : Type 0 where
  pub exits : (cmd : Command) (s : S) → P s → P (hooks.exit_cmd cmd s)
  pub node_cmds : (cmd : Command) (s : S) → P s → P (hooks.parse_node_cmd cmd s)
  pub new_edges : (a b : ℤ) (o : EdgeOptions D) (s : S) → P s → P (hooks.create_new_edge a b o s)
  pub fail_edges : (a b : ℤ) (s : S) → P s → P (hooks.fail_edge_hook a b s)
  pub fail_nodes : (a : ℤ) (s : S) → P s → P (hooks.fail_node_hook a s)
  pub restart_edges : (a b : ℤ) (s : S) → P s → P (hooks.restart_edge_hook a b s)
  pub restart_nodes : (a : ℤ) (s : S) → P s → P (hooks.restart_node_hook a s)
  pub prints : (bytes : List ℕ) (s : S) → P s → P (hooks.print bytes s)

-- A property of either branch.
if_keeps :
    {S T : Type 0} (P : S → Type 0) (b : Bool) (x y : S × T)
    → P x.0
    → P y.0
    → P (if b then x else y).0
if_keeps P true x y h k = h
if_keeps P false x y h k = k

module _ {D S : Type 0} (double : DoubleOps D) (text : TextOps D) (hooks : Hooks D S)
    (P : S → Type 0) (keeps : Keeps P hooks) where
  create_edge-keeps :
      (o : Option (EdgeCommand D)) (s : S) → P s → P (create_edge double text hooks o s)
  create_edge-keeps none s h = h
  create_edge-keeps (some (a, b, o)) s h = keeps.new_edges a b o s h

  fail-keeps : (o : Option (ℤ × ℤ)) (s : S) → P s → P (fail double text hooks o s)
  fail-keeps none s h = h
  fail-keeps (some (a, b)) s h = elim (Bool-cases (not (b ==ℤ minus_one))) [
    | inl e ↦ rw e (keeps.fail_edges a b s h)
    | inr e ↦ rw e (keeps.fail_nodes a s h)
  ]

  restart-keeps : (o : Option (ℤ × ℤ)) (s : S) → P s → P (restart double text hooks o s)
  restart-keeps none s h = h
  restart-keeps (some (a, b)) s h = elim (Bool-cases (not (b ==ℤ minus_one))) [
    | inl e ↦ rw e (keeps.restart_edges a b s h)
    | inr e ↦ rw e (keeps.restart_nodes a s h)
  ]

  echo-keeps : (cmd : Command) (s : S) → P s → P (echo double text hooks cmd s).0
  unfolding echo
  echo-keeps cmd s h = if_keeps P _ _ _ (keeps.prints _ s h) h

  after_time-keeps :
      (cmd : Command) (t : ℤ) (s : S) → P s → P (after_time double text hooks cmd t s).0
  unfolding after_time
  after_time-keeps cmd t s h = if_keeps P _ _ _ (keeps.node_cmds cmd s h) h

  parse_common_cmds-keeps :
      (cmd : Command) (now : ℤ) (s : S) → P s → P (parse_common_cmds double text hooks cmd now s).0
  unfolding parse_common_cmds
  parse_common_cmds-keeps cmd now s h =
      let h' = echo-keeps cmd (hooks.exit_cmd cmd s) (keeps.exits cmd s h) in
      if_keeps P _ _ _ h' (after_time-keeps cmd (parse_time double text cmd now) _ h')

  parse_edge-keeps : (cmd : Command) (s : S) → P s → P (parse_edge double text hooks cmd s).0
  unfolding parse_edge
  parse_edge-keeps cmd s h = if_keeps P _ _ _ (create_edge-keeps (read_edge double text cmd) s h) h

  parse_fail-keeps : (cmd : Command) (s : S) → P s → P (parse_fail double text hooks cmd s).0
  unfolding parse_fail
  parse_fail-keeps cmd s h = if_keeps P _ _ _ (fail-keeps (read_pair double text cmd) s h) h

  parse_restart-keeps : (cmd : Command) (s : S) → P s → P (parse_restart double text hooks cmd s).0
  unfolding parse_restart
  parse_restart-keeps cmd s h = if_keeps P _ _ _ (restart-keeps (read_pair double text cmd) s h) h

  parse_command-keeps :
      (cmd : Command) (now : ℤ) (s : S) → P s → P (parse_command double text hooks cmd now s).0
  unfolding parse_command
  parse_command-keeps cmd now s h =
      let r₁ = parse_edge double text hooks cmd s in
      let r₂ = parse_fail double text hooks cmd r₁.0 in
      let r₃ = parse_restart double text hooks cmd r₂.0 in
      let r₄ = parse_common_cmds double text hooks cmd now r₃.0 in
      let h₁ = parse_edge-keeps cmd s h in
      let h₂ = parse_fail-keeps cmd r₁.0 h₁ in
      let h₃ = parse_restart-keeps cmd r₂.0 h₂ in
      let third = if r₃.1 then (r₃.0, minus_one) else r₄ in
      let second = if r₂.1 then (r₂.0, minus_one) else third in
      if_keeps P r₁.1 (r₁.0, minus_one) second h₁
        (if_keeps P r₂.1 (r₂.0, minus_one) third h₂
          (if_keeps P r₃.1 (r₃.0, minus_one) r₄ h₃ (parse_common_cmds-keeps cmd now r₃.0 h₃)))

  pub parse_line-keeps :
      (line : List ℕ) (now : ℤ) (s : S) → P s → P (parse_line double text hooks line now s).0
  unfolding parse_line
  parse_line-keeps line now s h =
      if_keeps P (skip_line line) (s, minus_one)
        (parse_command double text hooks (split_spaces line) now s) h
        (parse_command-keeps (split_spaces line) now s h)

module _ {S : Type 0} (P : S → Type 0) (parse : List ℕ → ℤ → S → S × ℤ)
    (keep : (line : List ℕ) (now : ℤ) (s : S) → P s → P (parse line now s).0) where
  parse_lines-keeps :
      (now : ℤ) (lines : List (List ℕ)) (s : S) → P s → P (parse_lines parse now lines s).0
  unfolding parse_lines
  parse_lines-keeps now [] s h = h
  parse_lines-keeps now (line ∷ rest) s h = elim (Bool-cases ((parse line now s).1 ==ℤ minus_one)) [
    | inl e ↦ rw e (parse_lines-keeps now rest (parse line now s).0 (keep line now s h))
    | inr e ↦ rw e (keep line now s h)
  ]

  pub parse_remainder-keeps :
      (now : ℤ) (lines : Option (List (List ℕ))) (s : S)
      → P s
      → P (parse_remainder parse now lines s).0
  unfolding parse_remainder
  parse_remainder-keeps now none s h = h
  parse_remainder-keeps now (some lines) s h = parse_lines-keeps now lines s h
