-- ===== src/Tests/Text.antt =====
-- Commands as text, with decimal numbers for the conversions of the standard library.
use cpp_tcp.Base.{
  ℕ, zero, suc, ◌+◌, ◌-◌, ◌*◌, ◌/◌, ◌%◌, ◌≡◌, refl, true, false, ◌&&◌, Option, none, some, List, [],
  ◌∷◌, ◌++◌, ltb, leb, ◌==◌, length, if◌then◌else◌,
}
use cpp_tcp.Base.Int.{ℤ, pos, negsuc, minus_one, sub_ℕ, ◌*ℤ◌, ◌==ℤ◌}
use cpp_tcp.Base.Text.{TextOps, codes, word-IsToken, join, split_spaces, trim, split_loop}
use cpp_tcp.Sim.Topology.{Topology}
use cpp_tcp.Sim.Topology
use cpp_tcp.Sim.Parser.{
  Hooks, parse_line, parse_command, parse_lines, skip_line, parse_edge, parse_fail, read_pair,
  parse_restart, parse_common_cmds, echo, after_time, parse_time, read_time,
}
use cpp_tcp.Sim.Parser.Commands.{edge_command, parse_line-edge_command}
use cpp_tcp.Sim.Parser.Script.{none_left, reads, parse_lines_stop}
use cpp_tcp.Emu.ArpCommands.{FormatOps, add_neighbor, add_neighbor_options, receive_add_neighbor}
use cpp_tcp.Emu.ArpCommands.Doubles.{IsFormatted}
use cpp_tcp.Emu.ArpCommands.RoundTrip.{receive_add_neighbor-add_neighbor}
use cpp_tcp.Tests.{thousandths}
use cpp_tcp.Tests.Links.{options}

abbrev digits : ℕ → ℕ → List ℕ → List ℕ
digits zero n acc = acc
digits (suc f) n acc =
    let rest = digits f (n / 10) ((48 + n % 10) ∷ acc) in if ltb n 10 then (48 + n) ∷ acc else rest

abbrev decimal_of : ℤ → List ℕ
decimal_of (pos n) = digits 10 n []
decimal_of (negsuc n) = b'-' ∷ digits 10 (suc n) []

-- The digits at the front, after the value read so far.
abbrev read_on : ℕ → List ℕ → ℕ
read_on v [] = v
read_on v (c ∷ s) =
    let more = read_on (v * 10 + (c - 48)) s in if leb 48 c && leb c 57 then more else v

abbrev read_unsigned : List ℕ → Option ℕ
read_unsigned [] = none
read_unsigned (c ∷ s) = if leb 48 c && leb c 57 then some (read_on 0 (c ∷ s)) else none

abbrev negated : Option ℕ → Option ℤ
negated none = none
negated (some n) = some (sub_ℕ 0 n)

abbrev positive : Option ℕ → Option ℤ
positive none = none
positive (some n) = some (pos n)

abbrev read_int : List ℕ → Option ℤ
read_int [] = none
read_int (c ∷ s) = if c == b'-' then negated (read_unsigned s) else positive (read_unsigned (c ∷ s))

abbrev scaled : Option ℤ → Option ℤ
scaled none = none
scaled (some v) = some (v *ℤ pos 1000)

-- The part behind the point is dropped.
abbrev pub decimal : TextOps ℤ
decimal = record {
  to_string = decimal_of;
  stoi = read_int;
  stol = read_int;
  stoll = read_int;
  stod = λ s. scaled (read_int s);
  inet_pton = λ s. ltb 6 (length s);
}

abbrev pub whole : FormatOps ℤ
whole = record {
  format = λ prec v. codes "0";
  is_nan = λ v. false;
  is_inf = λ v. false;
  equal = ◌==ℤ◌;
}

-- Edges go to a topology, and all else is ignored.
abbrev hooks : Hooks ℤ (Topology ℤ)
hooks = record {
  exit_cmd = λ cmd t. t;
  parse_node_cmd = λ cmd t. t;
  create_new_edge = λ a b o t. Topology.new_edge options a b o t;
  fail_edge_hook = λ a b t. (Topology.fail_edge options a b t).0;
  fail_node_hook = λ a t. Topology.fail_node a t;
  restart_edge_hook = λ a b t. (Topology.restart_edge options a b t).0;
  restart_node_hook = λ a t. Topology.restart_node a t;
  print = λ bytes t. t;
}

abbrev nowhere : Topology ℤ
nowhere = Topology.init false

parse_line-edge_command_example :
    parse_line thousandths decimal hooks
      (join (
        edge_command
          (codes "3")
          (codes "12")
          (codes "0.0")
          (codes "5")
          (codes "1000")
          (codes "250")))
      (pos 0)
      nowhere
    ≡ (Topology.new_edge options (pos 3) (pos 12) options nowhere, minus_one)
unfolding ◌*ℤ◌
parse_line-edge_command_example =
    parse_line-edge_command thousandths decimal hooks (codes "3") (codes "12") (codes "0.0")
      (codes "5") (codes "1000") (codes "250") (pos 3) (pos 12) options (pos 0) nowhere
      (word-IsToken _ _ refl, refl) (word-IsToken _ _ refl, refl) (word-IsToken _ _ refl, refl)
      (word-IsToken _ _ refl, refl) (word-IsToken _ _ refl, refl) (word-IsToken _ _ refl, refl)

loss_rate-IsFormatted : IsFormatted decimal whole options.loss_rate
unfolding ◌*ℤ◌
loss_rate-IsFormatted = record {
  no_nan = refl;
  no_inf = refl;
  words = λ prec. word-IsToken _ _ refl;
  enough = (pos 0, refl, refl);
  pointed = λ prec v n r. r;
}

receive_add_neighbor-add_neighbor_example :
    (v : ℤ) × (whole.equal v options.loss_rate ≡ true)
    × (receive_add_neighbor thousandths decimal (
          add_neighbor_options thousandths decimal whole
            (pos 7)
            (codes "10.0.0.1")
            (pos 5000)
            options)
        ≡ some (record {
          node_id = pos 7;
          ip_address = codes "10.0.0.1";
          port = pos 5000;
          options = some (record options { loss_rate = v });
        }))
    × (receive_add_neighbor thousandths decimal
          (add_neighbor thousandths decimal whole (pos 7) (codes "10.0.0.1") (pos 5000))
        ≡ some (record {
          node_id = pos 7;
          ip_address = codes "10.0.0.1";
          port = pos 5000;
          options = none;
        }))
receive_add_neighbor-add_neighbor_example =
    receive_add_neighbor-add_neighbor thousandths decimal whole (pos 7) (pos 5000)
      (codes "10.0.0.1") options (word-IsToken _ _ refl, refl) (word-IsToken _ _ refl, refl)
      (word-IsToken _ _ refl) loss_rate-IsFormatted (word-IsToken _ _ refl, refl)
      (word-IsToken _ _ refl, refl) (word-IsToken _ _ refl, refl)

abbrev parse : List ℕ → ℤ → Topology ℤ → Topology ℤ × ℤ
parse = parse_line thousandths decimal hooks

-- The second line defers the third.
parse_lines_stop_example :
    (parse_lines parse
        (pos 0)
        ((codes "fail 4" ∷ []) ++ (codes "time 2" ∷ codes "edge 1 2" ∷ []))
        nowhere
      ≡ (Topology.fail_node (pos 4) nowhere, codes "edge 1 2" ∷ [], pos 2000))
    × (parse_lines parse (pos 0) (codes "fail 4" ∷ []) nowhere
        ≡ (Topology.fail_node (pos 4) nowhere, [], minus_one))
unfolding parse_line skip_line split_spaces trim split_loop parse_command parse_edge parse_fail
    Topology.fail_node read_pair parse_restart parse_common_cmds echo after_time parse_time
    read_time ◌*ℤ◌
parse_lines_stop_example =
    parse_lines_stop parse (pos 0) nowhere (Topology.fail_node (pos 4) nowhere)
      (Topology.fail_node (pos 4) nowhere) (codes "fail 4" ∷ []) (codes "edge 1 2" ∷ [])
      (codes "time 2") (pos 2000)
      (reads nowhere (Topology.fail_node (pos 4) nowhere) (Topology.fail_node (pos 4) nowhere)
        (codes "fail 4") [] refl (none_left (Topology.fail_node (pos 4) nowhere)))
      refl refl
