-- ===== src/Emu/ArpCommands/RoundTrip.antt =====
-- What is sent as text is read back.
use mathlib.Core.List.{append_assoc}
use cpp_tcp.Base.{ℕ, ◌≡◌, refl, true, false, none, some, Option, List, [], ◌∷◌, ◌++◌, All}
use cpp_tcp.Base.Int.{ℤ}
use cpp_tcp.Base.Double.{DoubleOps}
use cpp_tcp.Base.Text.{TextOps, codes, IsToken, join, split_spaces-join, word-IsToken}
use cpp_tcp.Sim.Edge.{EdgeOptions}
use cpp_tcp.Sim.Parser.Commands.{Shows}
use cpp_tcp.Emu.ArpCommands.Doubles.{IsFormatted, java_double-Shows}
use cpp_tcp.Emu.ArpCommands.{
  FormatOps, java_double, add_neighbor, add_neighbor_options, remove_neighbor, receive_reset,
  read_with_options, read_plain, receive_add_neighbor_options, receive_add_neighbor,
  receive_remove_neighbor,
}

module _ {D : Type 0} (double : DoubleOps D) (text : TextOps D) (fmt : FormatOps D)
    (node_id port : ℤ) (ip : List ℕ) where
  plain_tokens : List (List ℕ)
  plain_tokens = text.to_string node_id ∷ ip ∷ text.to_string port ∷ []

  option_tokens : EdgeOptions D → List (List ℕ)
  option_tokens o =
      codes "lossRate"
      ∷ java_double double text fmt o.loss_rate
      ∷ codes "delay"
      ∷ text.to_string o.delay_ms
      ∷ codes "bw"
      ∷ text.to_string o.bw_bytes_per_sec
      ∷ codes "bt"
      ∷ text.to_string o.buffering_ms
      ∷ []

  add_neighbor-join :
      add_neighbor double text fmt node_id ip port ≡ join (codes "add" ∷ plain_tokens)
  unfolding add_neighbor plain_tokens
  add_neighbor-join = refl

  add_neighbor_options-join :
      (o : EdgeOptions D)
      → add_neighbor_options double text fmt node_id ip port o
        ≡ join (codes "add" ∷ (plain_tokens ++ option_tokens o))
  unfolding add_neighbor_options add_neighbor plain_tokens option_tokens
  add_neighbor_options-join o = simp append_assoc refl

-- The number is written as a word that is read back as this number.
abbrev pub IsShown {ℓ} : {A : Type ℓ} → (A → List ℕ) → (List ℕ → Option A) → A → Type ℓ
IsShown write read v = Shows read (write v) v

module _ {D : Type 0} (double : DoubleOps D) (text : TextOps D) (fmt : FormatOps D)
    (node_id port : ℤ) (ip : List ℕ) where
  -- The text of the loss rate is read as some number.
  receive_add_neighbor-shown :
      (o : EdgeOptions D) (v : D)
      → IsShown text.to_string text.stoi node_id
      → IsShown text.to_string text.stoi port
      → IsToken ip
      → Shows text.stod (java_double double text fmt o.loss_rate) v
      → IsShown text.to_string text.stoll o.delay_ms
      → IsShown text.to_string text.stoi o.bw_bytes_per_sec
      → IsShown text.to_string text.stoll o.buffering_ms
      → (receive_add_neighbor double text (add_neighbor_options double text fmt node_id ip port o)
          ≡ some (record {
            node_id = node_id;
            ip_address = ip;
            port = port;
            options = some (record o { loss_rate = v });
          }))
        × (receive_add_neighbor double text (add_neighbor double text fmt node_id ip port)
            ≡ some (record { node_id = node_id; ip_address = ip; port = port; options = none }))
  unfolding receive_add_neighbor receive_add_neighbor_options read_with_options read_plain
      plain_tokens option_tokens
  receive_add_neighbor-shown o v hn hp hi hl hd hw hb =
      let rest : All IsToken (option_tokens double text fmt node_id port ip o) = (
        word-IsToken _ _ refl,
        (
          hl.0,
          (
            word-IsToken _ _ refl,
            (hd.0, (word-IsToken _ _ refl, (hw.0, (word-IsToken _ _ refl, (hb.0, tt))))),
          ),
        ),
      ) in
      let split =
        split_spaces-join (codes "add")
          (plain_tokens double text fmt node_id port ip
            ++ option_tokens double text fmt node_id port ip o)
          (word-IsToken _ _ refl) (hn.0, (hi, (hp.0, rest))) in
      let split' =
        split_spaces-join (codes "add") (plain_tokens double text fmt node_id port ip)
          (word-IsToken _ _ refl) (hn.0, (hi, (hp.0, tt))) in
      (
        rw
            (
              add_neighbor_options-join double text fmt node_id port ip o,
              split,
              hn.1,
              hp.1,
              hl.1,
              hd.1,
              hw.1,
              hb.1,
            )
            refl,
        rw (add_neighbor-join double text fmt node_id port ip, split', hn.1, hp.1) refl,
      )

module _ {D : Type 0} (double : DoubleOps D) (text : TextOps D) (fmt : FormatOps D)
    (node_id port : ℤ) (ip : List ℕ) where
  -- Where the integers are written as words that are read back, the address is a word, and the
  -- formats of the loss rate are as the standard has it: the receiver of the command with options
  -- gets the node, the address, the port, a loss rate equal to the one that was sent, and the three
  -- other options, and the receiver of the command without options gets the node, the address and
  -- the port.
  pub receive_add_neighbor-add_neighbor :
      (o : EdgeOptions D)
      → IsShown text.to_string text.stoi node_id
      → IsShown text.to_string text.stoi port
      → IsToken ip
      → IsFormatted text fmt o.loss_rate
      → IsShown text.to_string text.stoll o.delay_ms
      → IsShown text.to_string text.stoi o.bw_bytes_per_sec
      → IsShown text.to_string text.stoll o.buffering_ms
      → (v : D) × (fmt.equal v o.loss_rate ≡ true)
        × (receive_add_neighbor double text (add_neighbor_options double text fmt node_id ip port o)
            ≡ some (record {
              node_id = node_id;
              ip_address = ip;
              port = port;
              options = some (record o { loss_rate = v });
            }))
        × (receive_add_neighbor double text (add_neighbor double text fmt node_id ip port)
            ≡ some (record { node_id = node_id; ip_address = ip; port = port; options = none }))
  receive_add_neighbor-add_neighbor o hn hp hi f hd hw hb =
      let (v, shown, same) = java_double-Shows double text fmt o.loss_rate f in
      let r =
        receive_add_neighbor-shown double text fmt node_id port ip o v hn hp hi shown hd hw hb in
      (v, same, r.0, r.1)

module _ {D : Type 0} (double : DoubleOps D) (text : TextOps D) (fmt : FormatOps D) where
  -- A command to remove a node whose number is written as a word that is read back is read as the
  -- removal of that node, and neither as a command to add one nor as `reset`.
  receive_remove_neighbor-remove_neighbor :
      (node_id : ℤ)
      → IsShown text.to_string text.stoi node_id
      → (receive_remove_neighbor double text (remove_neighbor double text fmt node_id) ≡ node_id)
        × (receive_add_neighbor double text (remove_neighbor double text fmt node_id) ≡ none)
        × (receive_reset (remove_neighbor double text fmt node_id) ≡ false)
  unfolding receive_remove_neighbor remove_neighbor receive_add_neighbor
      receive_add_neighbor_options receive_reset
  receive_remove_neighbor-remove_neighbor node_id hn =
      let split =
        split_spaces-join (codes "remove") (text.to_string node_id ∷ []) (word-IsToken _ _ refl)
          (hn.0, tt) in
      (rw (split, hn.1) refl, rw split refl, refl)
