-- ===== src/Emu/ArpCommands.antt =====
-- include/nb/trawler_node_arp_commands.hpp and src/emu/trawler_node_arp_commands.cpp: the lines of text
-- between Trawler and an emulated node. The formats of the standard library are parameters: `TextOps`
-- for integers, and `FormatOps` for `%.*g` and the tests on a double.
pub mod Doubles
pub mod RoundTrip
use cpp_tcp.Base.{
  ℕ, zero, suc, Bool, true, false, not, ◌&&◌, ◌||◌, Option, none, some, List, [], ◌∷◌, ◌++◌, ◌==◌,
  length, if◌then◌else◌, ◌>>=◌,
}
use cpp_tcp.Base.Int.{ℤ, minus_one}
use cpp_tcp.Base.Double.{DoubleOps}
use cpp_tcp.Base.Text.{TextOps, codes, bytes_eq, split_spaces}
use cpp_tcp.Sim.Edge.{EdgeOptions, default_options}
use cpp_tcp.Sim.Parser.{Command, token}

-- `std::snprintf` with `%.*g` at a precision, `std::isnan`, `std::isinf` and `==`.
pub record FormatOps (D : Type 0) : Type 0 where
  pub format : ℕ → D → List ℕ
  pub is_nan : D → Bool
  pub is_inf : D → Bool
  pub equal : D → D → Bool

pub record AddNeighborResult (D : Type 0) : Type 0 where
  pub node_id : ℤ
  pub ip_address : List ℕ
  pub port : ℤ
  pub options : Option (EdgeOptions D)

-- The file's own copy of the splitting of a line.
abbrev pub split_space : List ℕ → List (List ℕ)
split_space s = split_spaces s

-- s.find(c) != npos
abbrev pub has : ℕ → List ℕ → Bool
has c [] = false
has c (x ∷ s) = x == c || has c s

-- The two ends of the text of a double: a point is added where there is none and no exponent.
abbrev pub with_point : List ℕ → List ℕ
with_point s = if not (has b'.' s) && not (has b'e' s || has b'E' s) then s ++ codes ".0" else s

module _ {D : Type 0} (double : DoubleOps D) (text : TextOps D) (fmt : FormatOps D) where
  -- The text is read back as this double. What `std::stod` throws counts as no.
  abbrev pub reads_back : D → Option D → Bool
  reads_back d none = false
  reads_back d (some back) = fmt.equal back d

  -- The loop over the precisions from `prec` on: the first that is read back, or the last one.
  unfoldable pub shortest : ℕ → ℕ → List ℕ → D → List ℕ
  shortest zero prec s d = s
  shortest (suc left) prec s d =
      let t = fmt.format prec d in
      let more = shortest left (suc prec) t d in if reads_back d (text.stod t) then t else more

  unfoldable pub java_double : D → List ℕ
  java_double d =
      if fmt.is_nan d
      then codes "NaN"
      else if fmt.is_inf d
      then if double.less d (double.literal 0 1) then codes "-Infinity" else codes "Infinity"
      else with_point (shortest 17 1 [] d)

  unfoldable pub add_neighbor : ℤ → List ℕ → ℤ → List ℕ
  add_neighbor node_id ip_address port =
      codes "add "
      ++ (text.to_string node_id ++ (b' ' ∷ (ip_address ++ (b' ' ∷ text.to_string port))))

  unfoldable pub add_neighbor_options : ℤ → List ℕ → ℤ → EdgeOptions D → List ℕ
  add_neighbor_options node_id ip_address port options =
      add_neighbor node_id ip_address port
      ++ (codes " lossRate "
          ++ (java_double options.loss_rate
              ++ (codes " delay "
                  ++ (text.to_string options.delay_ms
                      ++ (codes " bw "
                          ++ (text.to_string options.bw_bytes_per_sec
                              ++ (codes " bt " ++ text.to_string options.buffering_ms)))))))

  unfoldable pub remove_neighbor : ℤ → List ℕ
  remove_neighbor node_id = codes "remove " ++ text.to_string node_id

abbrev pub reset : List ℕ
reset = codes "reset"

unfoldable pub receive_reset : List ℕ → Bool
receive_reset cmd = bytes_eq cmd reset

module _ {D : Type 0} (double : DoubleOps D) (text : TextOps D) where
  -- The reading of the twelve tokens. `none`: a number cannot be read.
  unfoldable pub read_with_options : Command → Option (AddNeighborResult D)
  read_with_options args = do
    node_id ← text.stoi (token 1 args)
    port ← text.stoi (token 3 args)
    loss_rate ← text.stod (token 5 args)
    delay_ms ← text.stoll (token 7 args)
    bw ← text.stoi (token 9 args)
    bt ← text.stoll (token 11 args)
    some (record {
      node_id = node_id;
      ip_address = token 2 args;
      port = port;
      options = some (record {
        loss_rate = loss_rate;
        delay_ms = delay_ms;
        bw_bytes_per_sec = bw;
        buffering_ms = bt;
      });
    })

  unfoldable pub receive_add_neighbor_options : List ℕ → Option (AddNeighborResult D)
  receive_add_neighbor_options cmd =
      let args = split_space cmd in
      if not (length args == 12)
        || not (bytes_eq (token 0 args) (codes "add"))
        || not (bytes_eq (token 4 args) (codes "lossRate"))
        || not (bytes_eq (token 6 args) (codes "delay"))
        || not (bytes_eq (token 8 args) (codes "bw"))
        || not (bytes_eq (token 10 args) (codes "bt"))
      then none
      else read_with_options args

  unfoldable pub read_plain : Command → Option (AddNeighborResult D)
  read_plain args = do
    node_id ← text.stoi (token 1 args)
    port ← text.stoi (token 3 args)
    some (record { node_id = node_id; ip_address = token 2 args; port = port; options = none })

  -- The form without options, where the other one does not fit.
  abbrev or_plain : Option (AddNeighborResult D) → List (List ℕ) → Option (AddNeighborResult D)
  or_plain (some r) args = some r
  or_plain none args =
      if not (length args == 4) || not (bytes_eq (token 0 args) (codes "add"))
      then none
      else read_plain args

  unfoldable pub receive_add_neighbor : List ℕ → Option (AddNeighborResult D)
  receive_add_neighbor cmd = or_plain (receive_add_neighbor_options cmd) (split_space cmd)

  abbrev or_minus_one : Option ℤ → ℤ
  or_minus_one none = minus_one
  or_minus_one (some n) = n

  -- -1: another command, or a number that cannot be read.
  unfoldable pub receive_remove_neighbor : List ℕ → ℤ
  receive_remove_neighbor cmd =
      let args = split_space cmd in
      if not (length args == 2) || not (bytes_eq (token 0 args) (codes "remove"))
      then minus_one
      else or_minus_one (text.stoi (token 1 args))
