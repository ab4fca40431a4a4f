-- ===== src/Sim/Parser/Script.antt =====
-- How far a call of `parseRemainder` reads.
use mathlib.Core.List.{append-nil}
use cpp_tcp.Base.{ℕ, ◌≡◌, refl, ap, ◌∙◌, sym, false, List, [], ◌∷◌, ◌++◌}
use cpp_tcp.Base.Int.{ℤ, minus_one, ◌==ℤ◌}
use cpp_tcp.Sim.Parser.{parse_lines}

module _ {S : Type 0} (parse : List ℕ → ℤ → S → S × ℤ) (now : ℤ) where
  -- Lines that are read one after the other, none of which defers the rest.
  pub data Reads : S → List (List ℕ) → S → Type 0 where
    none_left : (s : S) → Reads s [] s
    reads :
        (s s' s'' : S) (line : List ℕ) (rest : List (List ℕ))
        → parse line now s ≡ (s', minus_one)
        → Reads s' rest s''
        → Reads s (line ∷ rest) s''

  parse_lines-Reads :
      (s s' : S) (lines more : List (List ℕ))
      → Reads s lines s'
      → parse_lines parse now (lines ++ more) s ≡ parse_lines parse now more s'
  unfolding parse_lines
  parse_lines-Reads s s' lines more (none_left _) = refl
  parse_lines-Reads s s' lines more (reads _ s₁ s'' line rest e r) =
      rw e (parse_lines-Reads s₁ s'' rest more r)

  -- A script is read up to the first line that defers, and that line is the last one with an effect:
  -- its time is returned, and exactly the lines behind it are left for the next call. Where no line
  -- defers, all are read, and -1 is returned.
  pub parse_lines_stop :
      (s s' s'' : S) (lines more : List (List ℕ)) (line : List ℕ) (t : ℤ)
      → Reads s lines s'
      → parse line now s' ≡ (s'', t)
      → (t ==ℤ minus_one) ≡ false
      → (parse_lines parse now (lines ++ (line ∷ more)) s ≡ (s'', more, t))
        × (parse_lines parse now lines s ≡ (s', [], minus_one))
  unfolding parse_lines
  parse_lines_stop s s' s'' lines more line t r e f = (
    parse_lines-Reads s s' lines (line ∷ more) r ∙ rw (e, f) refl,
    ap (λ xs. parse_lines parse now xs s) (sym (append-nil lines))
        ∙ parse_lines-Reads s s' lines [] r,
  )
