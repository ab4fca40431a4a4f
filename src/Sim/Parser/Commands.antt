-- ===== src/Sim/Parser/Commands.antt =====
-- What single commands do.
use cpp_tcp.Base.{◌≡◌, refl, some, List, [], ◌∷◌, ℕ, Option, drop}
use cpp_tcp.Base.Int.{ℤ, minus_one}
use cpp_tcp.Base.Double.{DoubleOps}
use cpp_tcp.Base.Text.{TextOps, codes, IsToken, join, word-IsToken, split_spaces-join}
use cpp_tcp.Sim.Edge.{EdgeOptions}
use cpp_tcp.Sim.Parser.{
  Command, Hooks, skip_line, read_edge, parse_edge, parse_fail, parse_restart, parse_command,
  parse_line,
}

-- A token that is read as this value.
abbrev pub Shows {ℓ} : {A : Type ℓ} → (List ℕ → Option A) → List ℕ → A → Type ℓ
Shows read w v = IsToken w × (read w ≡ some v)

-- The text of a complete `edge` command.
abbrev pub edge_command : List ℕ → List ℕ → List ℕ → List ℕ → List ℕ → List ℕ → Command
edge_command a b loss delay bw bt =
    codes "edge"
    ∷ a
    ∷ b
    ∷ codes "lossRate"
    ∷ loss
    ∷ codes "delay"
    ∷ delay
    ∷ codes "bw"
    ∷ bw
    ∷ codes "bt"
    ∷ bt
    ∷ []

module _ {D S : Type 0} (double : DoubleOps D) (text : TextOps D) (hooks : Hooks D S) where
  -- A complete `edge` command, its numbers written so that they are read back and without spaces,
  -- creates the edge with exactly these ends and options, and does nothing else.
  pub parse_line-edge_command :
      (a b loss delay bw bt : List ℕ) (x y : ℤ) (options : EdgeOptions D) (now : ℤ) (s : S)
      → Shows text.stoi a x
      → Shows text.stoi b y
      → Shows text.stod loss options.loss_rate
      → Shows text.stoll delay options.delay_ms
      → Shows text.stoi bw options.bw_bytes_per_sec
      → Shows text.stoll bt options.buffering_ms
      → parse_line double text hooks (join (edge_command a b loss delay bw bt)) now s
        ≡ (hooks.create_new_edge x y options s, minus_one)
  unfolding parse_line skip_line parse_command parse_edge parse_fail parse_restart read_edge
  parse_line-edge_command a b loss delay bw bt x y options now s ha hb hl hd hw ht =
      let split =
        split_spaces-join (codes "edge") (drop 1 (edge_command a b loss delay bw bt))
          (word-IsToken _ _ refl)
          (
            ha.0,
            (
              hb.0,
              (
                word-IsToken _ _ refl,
                (
                  hl.0,
                  (
                    word-IsToken _ _ refl,
                    (hd.0, (word-IsToken _ _ refl, (hw.0, (word-IsToken _ _ refl, (ht.0, (tt)))))),
                  ),
                ),
              ),
            ),
          ) in
      rw (split, ht.1, hw.1, hd.1, hl.1, ha.1, hb.1) refl
