-- ===== src/Sim/Parser.antt =====
-- include/nb/commands_parser.hpp and src/sim/commands_parser.cpp: the commands of a script, one to a
-- line. The virtual methods and what they act on are a parameter, `Hooks`; the messages on
-- `std::cerr` are left out. The open file is the list of its lines that are not read yet.
pub mod Commands
pub mod Script
pub mod Keeping
use cpp_tcp.Base.{
  ℕ, zero, suc, ◌+◌, Bool, true, false, not, ◌&&◌, ◌||◌, Option, none, some, List, [], ◌∷◌, ◌++◌,
  ◌==◌, ltb, length, get_or, get_elem?, take, drop, if◌then◌else◌, ◌>>=◌,
}
use cpp_tcp.Base.Int.{ℤ, pos, minus_one, ◌+ℤ◌, ◌*ℤ◌, ◌==ℤ◌}
use cpp_tcp.Base.Double.{DoubleOps}
use cpp_tcp.Base.Text.{TextOps, codes, bytes_eq, split_spaces, first_token}
use cpp_tcp.Sim.Edge.{EdgeOptions, default_options}

abbrev pub Command : Type 0
Command = List (List ℕ)

-- The virtual methods. `print` is what goes to `std::cout`. The state after a hook that throws is
-- the one that it leaves: the parser goes on as if it had returned.
pub record Hooks (D S : Type 0) : Type 0 where
  pub exit_cmd : Command → S → S
  pub parse_node_cmd : Command → S → S
  pub create_new_edge : ℤ → ℤ → EdgeOptions D → S → S
  pub fail_edge_hook : ℤ → ℤ → S → S
  pub fail_node_hook : ℤ → S → S
  pub restart_edge_hook : ℤ → ℤ → S → S
  pub restart_node_hook : ℤ → S → S
  pub print : List ℕ → S → S

-- The token at a place where there is one.
abbrev pub token : ℕ → Command → List ℕ
token i cmd = get_or cmd i []

-- s.rfind(prefix, 0) == 0
abbrev pub starts_with : List ℕ → List ℕ → Bool
starts_with prefix s = bytes_eq (take (length prefix) s) prefix

unfoldable pub skip_line : List ℕ → Bool
skip_line [] = true
skip_line (c ∷ line) =
    let first = first_token (split_spaces (c ∷ line)) in
    starts_with (codes "//") first || starts_with (codes "#") first

-- Each token of the range, with a space behind it, and the end of the line.
abbrev pub print_str_array : Command → List ℕ
print_str_array [] = 10 ∷ []
print_str_array (w ∷ ws) = w ++ (b' ' ∷ print_str_array ws)

-- A command that has been read: the two ends of the edge and its options.
abbrev pub EdgeCommand : Type 0 → Type 0
EdgeCommand D = ℤ × ℤ × EdgeOptions D

module _ {D : Type 0} (double : DoubleOps D) (text : TextOps D) where
  -- The cases of the `switch`, each of which goes on with the one below it. `none`: an exception.
  abbrev pub read_nodes : Command → EdgeOptions D → Option (EdgeCommand D)
  read_nodes cmd options = do
    a ← text.stoi (token 1 cmd)
    b ← text.stoi (token 2 cmd)
    some (a, b, options)

  abbrev pub set_loss_rate : Command → EdgeOptions D → Option (EdgeOptions D)
  set_loss_rate cmd options =
      if bytes_eq (token 3 cmd) (codes "lossRate")
      then text.stod (token 4 cmd) >>= (λ v. some (record options { loss_rate = v }))
      else some options

  abbrev pub set_delay : Command → EdgeOptions D → Option (EdgeOptions D)
  set_delay cmd options =
      if bytes_eq (token 5 cmd) (codes "delay")
      then text.stoll (token 6 cmd) >>= (λ v. some (record options { delay_ms = v }))
      else some options

  abbrev pub set_bw : Command → EdgeOptions D → Option (EdgeOptions D)
  set_bw cmd options =
      if bytes_eq (token 7 cmd) (codes "bw")
      then text.stoi (token 8 cmd) >>= (λ v. some (record options { bw_bytes_per_sec = v }))
      else some options

  abbrev pub set_bt : Command → EdgeOptions D → Option (EdgeOptions D)
  set_bt cmd options =
      if bytes_eq (token 9 cmd) (codes "bt")
      then text.stoll (token 10 cmd) >>= (λ v. some (record options { buffering_ms = v }))
      else some options

  abbrev pub case5 : Command → EdgeOptions D → Option (EdgeCommand D)
  case5 cmd options = set_loss_rate cmd options >>= read_nodes cmd

  abbrev pub case7 : Command → EdgeOptions D → Option (EdgeCommand D)
  case7 cmd options = set_delay cmd options >>= case5 cmd

  abbrev pub case9 : Command → EdgeOptions D → Option (EdgeCommand D)
  case9 cmd options = set_bw cmd options >>= case7 cmd

  abbrev pub case11 : Command → EdgeOptions D → Option (EdgeCommand D)
  case11 cmd options = set_bt cmd options >>= case9 cmd

  unfoldable pub read_edge : Command → Option (EdgeCommand D)
  read_edge cmd =
      let n = length cmd in
      let options = default_options double in
      if n == 11
      then case11 cmd options
      else if n == 9
      then case9 cmd options
      else if n == 7
      then case7 cmd options
      else if n == 5
      then case5 cmd options
      else if n == 3
      then read_nodes cmd options
      else none

  -- The two addresses of `fail` and `restart`: `b` is -1 where there is one only.
  unfoldable pub read_pair : Command → Option (ℤ × ℤ)
  read_pair cmd = do
    first ← get_elem? cmd 1
    a ← text.stoi first
    b ← if ltb 2 (length cmd) then text.stoi (token 2 cmd) else some minus_one
    some (a, b)

  -- `none`: an exception.
  unfoldable pub read_time : Command → ℤ → Option ℤ
  read_time cmd now_micros = do
    first ← get_elem? cmd 1
    let rest = get_elem? cmd 2
    if bytes_eq first (codes "+")
        then (rest >>= text.stoll) >>= (λ v. some (now_micros +ℤ v *ℤ pos 1000))
        else text.stoll first >>= (λ v. some (v *ℤ pos 1000))

  abbrev or_minus_one : Option ℤ → ℤ
  or_minus_one none = minus_one
  or_minus_one (some t) = t

  -- -1: not a time command, or one that cannot be read.
  unfoldable pub parse_time : Command → ℤ → ℤ
  parse_time cmd now_micros =
      if bytes_eq (token 0 cmd) (codes "time")
      then or_minus_one (read_time cmd now_micros)
      else minus_one

module _ {D S : Type 0} (double : DoubleOps D) (text : TextOps D) (hooks : Hooks D S) where
  abbrev create_edge : Option (EdgeCommand D) → S → S
  create_edge none s = s
  create_edge (some (a, b, options)) s = hooks.create_new_edge a b options s

  -- Each of these tells whether the line is its command, also where it cannot be read.
  unfoldable pub parse_edge : Command → S → S × Bool
  parse_edge cmd s =
      if bytes_eq (token 0 cmd) (codes "edge")
      then (create_edge (read_edge double text cmd) s, true)
      else (s, false)

  abbrev fail : Option (ℤ × ℤ) → S → S
  fail none s = s
  fail (some (a, b)) s =
      if not (b ==ℤ minus_one) then hooks.fail_edge_hook a b s else hooks.fail_node_hook a s

  unfoldable pub parse_fail : Command → S → S × Bool
  parse_fail cmd s =
      if bytes_eq (token 0 cmd) (codes "fail")
      then (fail (read_pair double text cmd) s, true)
      else (s, false)

  abbrev restart : Option (ℤ × ℤ) → S → S
  restart none s = s
  restart (some (a, b)) s =
      if not (b ==ℤ minus_one) then hooks.restart_edge_hook a b s else hooks.restart_node_hook a s

  unfoldable pub parse_restart : Command → S → S × Bool
  parse_restart cmd s =
      if bytes_eq (token 0 cmd) (codes "restart")
      then (restart (read_pair double text cmd) s, true)
      else (s, false)

  unfoldable pub echo : Command → S → S × Bool
  echo cmd s =
      if bytes_eq (token 0 cmd) (codes "echo")
      then (hooks.print (print_str_array (drop 1 cmd)) s, true)
      else (s, false)

  unfoldable pub after_time : Command → ℤ → S → S × ℤ
  after_time cmd defer_till s =
      if defer_till ==ℤ minus_one && not (bytes_eq (token 0 cmd) (codes "time"))
      then (hooks.parse_node_cmd cmd s, defer_till)
      else (s, defer_till)

  -- The time to go on at, or -1.
  unfoldable pub parse_common_cmds : Command → ℤ → S → S × ℤ
  parse_common_cmds cmd now_micros s =
      let (s', echoed) = echo cmd (hooks.exit_cmd cmd s) in
      if echoed then (s', minus_one) else after_time cmd (parse_time double text cmd now_micros) s'

  unfoldable pub parse_command : Command → ℤ → S → S × ℤ
  parse_command cmd now_micros s =
      let (s₁, is_edge) = parse_edge cmd s in
      let (s₂, is_fail) = parse_fail cmd s₁ in
      let (s₃, is_restart) = parse_restart cmd s₂ in
      if is_edge
      then (s₁, minus_one)
      else if is_fail
      then (s₂, minus_one)
      else if is_restart
      then (s₃, minus_one)
      else parse_common_cmds cmd now_micros s₃

  unfoldable pub parse_line : List ℕ → ℤ → S → S × ℤ
  parse_line line now_micros s =
      if skip_line line then (s, minus_one) else parse_command (split_spaces line) now_micros s

-- The loop of `parseRemainder` over the lines that are left: the lines still left, and the time to
-- go on at. The virtual `parseLine` is an argument.
unfoldable pub parse_lines :
    {S : Type 0} → (List ℕ → ℤ → S → S × ℤ) → ℤ → List (List ℕ) → S → S × List (List ℕ) × ℤ
parse_lines parse now_micros [] s = (s, [], minus_one)
parse_lines parse now_micros (line ∷ rest) s =
    let (s', defer_till) = parse line now_micros s in
    let more = parse_lines parse now_micros rest s' in
    if defer_till ==ℤ minus_one then more else (s', rest, defer_till)

-- Without an open file there is nothing to do. A file that is used up stays open.
unfoldable pub parse_remainder :
    {S : Type 0}
    → (List ℕ → ℤ → S → S × ℤ)
    → ℤ
    → Option (List (List ℕ))
    → S
    → S × Option (List (List ℕ)) × ℤ
parse_remainder parse now_micros none s = (s, none, minus_one)
parse_remainder parse now_micros (some lines) s =
    let (s', rest, defer_till) = parse_lines parse now_micros lines s in (s', some rest, defer_till)

-- Opening a file and reading it. `none`: the file cannot be opened, and it throws.
unfoldable pub parse_file :
    {S : Type 0}
    → (List ℕ → ℤ → S → S × ℤ)
    → Option (List (List ℕ))
    → ℤ
    → S
    → Option (S × Option (List (List ℕ)) × ℤ)
parse_file parse none now_micros s = none
parse_file parse (some lines) now_micros s = some (parse_remainder parse now_micros (some lines) s)
