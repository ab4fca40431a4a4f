-- ===== src/Emu/Emulator/Lines.antt =====
-- How the bytes from Trawler are cut does not matter.
use cpp_tcp.Base.{
  ℕ, ◌≡◌, refl, sym, ap, ◌∙◌, Bool, true, false, not, ◌&&◌, List, [], ◌∷◌, ◌++◌, ◌==◌, Bool-cases,
  inl, inr, arith,
}
use cpp_tcp.Base.Int.{ℤ}
use cpp_tcp.Base.Double.{DoubleOps}
use cpp_tcp.Base.Text.{TextOps}
use cpp_tcp.Emu.Emulator.{
  Emulator, EmulatorArpData, take_lines, drop_return, receive_line, receive_lines, refresh_arp,
}

-- No line ends in these bytes.
abbrev pub no_end : List ℕ → Bool
no_end [] = true
no_end (c ∷ buf) = not (c == 10) && no_end buf

append_assoc : (a b c : List ℕ) → (a ++ b) ++ c ≡ a ++ (b ++ c)
append_assoc [] b c = refl
append_assoc (x ∷ a) b c = ap (λ l. x ∷ l) (append_assoc a b c)

append_nil : (a : List ℕ) → a ++ [] ≡ a
append_nil [] = refl
append_nil (x ∷ a) = ap (λ l. x ∷ l) (append_nil a)

no_end-append : (a b : List ℕ) → no_end a ≡ true → no_end b ≡ true → no_end (a ++ b) ≡ true
no_end-append [] b h k = k
no_end-append (x ∷ a) b h k = ground (arith, no_end-append a b)

-- The part of a line may be passed or stand before what comes.
take_lines-append_part :
    (line part buf : List ℕ)
    → no_end part ≡ true
    → take_lines line (part ++ buf) ≡ take_lines (line ++ part) buf
unfolding take_lines
take_lines-append_part line [] buf h = ap (λ l. take_lines l buf) (sym (append_nil line))
take_lines-append_part line (c ∷ part) buf h =
    let other : (c == 10) ≡ false = ground arith in
    let rest : no_end part ≡ true = ground arith in
    rw other (
      take_lines-append_part (line ++ (c ∷ [])) part buf rest
      ∙ ap (λ l. take_lines l buf) (append_assoc line (c ∷ []) part))

take_lines-append :
    (line a b : List ℕ)
    → no_end line ≡ true
    → let first = take_lines line a in
      let second = take_lines [] (first.1 ++ b) in
      take_lines line (a ++ b) ≡ (first.0 ++ second.0, second.1)
unfolding take_lines
take_lines-append line [] b h = sym (take_lines-append_part [] line b h)
take_lines-append line (c ∷ a) b h = elim (Bool-cases (c == 10)) [
  | inl e ↦ rw e (ap (λ r. (line ∷ r.0, r.1)) (take_lines-append [] a b refl))
  | inr e ↦
      let last : no_end (line ++ (c ∷ [])) ≡ true = no_end-append line (c ∷ []) h (ground arith) in
      rw e (take_lines-append (line ++ (c ∷ [])) a b last)
]

module _ {D : Type 0} (double : DoubleOps D) (text : TextOps D) where
  receive_lines-append :
      (lines more : List (List ℕ)) (arp : List (ℤ × EmulatorArpData D))
      → receive_lines double text (lines ++ more) arp
        ≡ receive_lines double text more (receive_lines double text lines arp)
  unfolding receive_lines
  receive_lines-append [] more arp = refl
  receive_lines-append (line ∷ lines) more arp =
      receive_lines-append lines more (receive_line double text (drop_return line) arp)

  -- Bytes from Trawler that are read in two pieces, cut anywhere, leave the emulator as when they are
  -- read at once.
  pub refresh_arp-append :
      {K : Type 0} (a b : List ℕ) (e : Emulator D K)
      → refresh_arp double text (a ++ b) e ≡ refresh_arp double text b (refresh_arp double text a e)
  unfolding refresh_arp
  refresh_arp-append a b e =
      let first = take_lines [] (e.trawler_buf ++ a) in
      let second = take_lines [] (first.1 ++ b) in
      let both : take_lines [] (e.trawler_buf ++ (a ++ b)) ≡ (first.0 ++ second.0, second.1) =
        ap (take_lines []) (sym (append_assoc e.trawler_buf a b))
        ∙ take_lines-append [] (e.trawler_buf ++ a) b refl in
      ap (λ r. record e { trawler_buf = r.1; arp = receive_lines double text r.0 e.arp }) both
      ∙ ap (λ arp. record e { trawler_buf = second.1; arp = arp })
          (receive_lines-append first.0 second.0 e.arp)
