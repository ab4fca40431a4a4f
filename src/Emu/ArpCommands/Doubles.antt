-- ===== src/Emu/ArpCommands/Doubles.antt =====
-- What `javaDouble` writes is read back.
use cpp_tcp.Base.{
  ℕ, zero, suc, ◌+◌, ◌≡◌, ◌≢◌, refl, sym, All-append, Bool, true, false, not, ◌&&◌, ◌||◌, Option,
  none, some, List, [], ◌∷◌, ◌++◌, Bool-cases, inl, inr, arith, subst,
}
use cpp_tcp.Base.Double.{DoubleOps}
use cpp_tcp.Base.Text.{TextOps, codes, IsToken, word-IsToken}
use cpp_tcp.Sim.Parser.Commands.{Shows}
use cpp_tcp.Emu.ArpCommands.{FormatOps, has, with_point, reads_back, shortest, java_double}

-- The text has a point or an exponent.
abbrev is_pointed : List ℕ → Bool
is_pointed s = has b'.' s || (has b'e' s || has b'E' s)

-- What the standard says of a finite number: its text with seventeen digits is read as an equal
-- number, every text of it is a word, and one without point and exponent is read in the same way with
-- a point and a zero behind it.
pub record IsFormatted {D : Type 0} (text : TextOps D) (fmt : FormatOps D) (d : D) : Type 0 where
  pub no_nan : fmt.is_nan d ≡ false
  pub no_inf : fmt.is_inf d ≡ false
  pub words : (prec : ℕ) → IsToken (fmt.format prec d)
  pub enough : (v : D) × (text.stod (fmt.format 17 d) ≡ some v) × (fmt.equal v d ≡ true)
  pub pointed :
      (prec : ℕ) (v : D)
      → is_pointed (fmt.format prec d) ≡ false
      → text.stod (fmt.format prec d) ≡ some v
      → text.stod (fmt.format prec d ++ codes ".0") ≡ some v

append-IsToken : (w : List ℕ) → IsToken w → IsToken (w ++ codes ".0")
append-IsToken [] h = absurd (h.1 refl)
append-IsToken (c ∷ w) h =
    (All-append (λ c. c ≢ b' ') (c ∷ w) (codes ".0") h.0 (word-IsToken b'.' (codes "0") refl).0, cc)

module _ {D : Type 0} (double : DoubleOps D) (text : TextOps D) (fmt : FormatOps D) (d : D)
    (f : IsFormatted text fmt d) where
  -- A text of the number that is read as an equal one.
  abbrev Found : List ℕ → Type 0
  Found s =
      (prec : ℕ) × (v : D) × (s ≡ fmt.format prec d)
      × (text.stod s ≡ some v)
      × (fmt.equal v d ≡ true)

  reads_back-some :
      (o : Option D)
      → reads_back double text fmt d o ≡ true
      → (v : D) × (o ≡ some v) × (fmt.equal v d ≡ true)
  reads_back-some none h = absurd cc
  reads_back-some (some v) h = (v, refl, h)

  enough-reads_back :
      (prec : ℕ) → prec ≡ 17 → reads_back double text fmt d (text.stod (fmt.format prec d)) ≡ true
  enough-reads_back prec h =
      let (v, r, same) = f.enough in
      let r' : text.stod (fmt.format prec d) ≡ some v =
        subst (λ p. text.stod (fmt.format p d) ≡ some v) (sym h) r in
      rw r' same

  shortest-Found :
      (left prec : ℕ) (s : List ℕ)
      → left + prec ≡ 17
      → Found (shortest double text fmt (suc left) prec s d)
  unfolding shortest
  shortest-Found zero prec s n =
      let e = enough-reads_back prec (omega (arith, n)) in
      let (v, r, same) = reads_back-some (text.stod (fmt.format prec d)) e in
      rw e (prec, v, refl, r, same)
  shortest-Found (suc left) prec s n =
      let t = fmt.format prec d in
      elim (Bool-cases (reads_back double text fmt d (text.stod t))) [
        | inl e ↦
            let (v, r, same) = reads_back-some (text.stod t) e in rw e (prec, v, refl, r, same)
        | inr e ↦ rw e (shortest-Found left (suc prec) t (omega (arith, n)))
      ]

  with_point-Shows :
      (s : List ℕ) → Found s → (v : D) × Shows text.stod (with_point s) v × (fmt.equal v d ≡ true)
  with_point-Shows s (prec, v, e, r, same) =
      let word : IsToken s = subst IsToken (sym e) (f.words prec) in
      elim (Bool-cases (is_pointed s)) [
        | inl p ↦
            let stays : (not (has b'.' s) && not (has b'e' s || has b'E' s)) ≡ false =
              ground arith in
            (v, rw stays (word, r), same)
        | inr p ↦
            let added : (not (has b'.' s) && not (has b'e' s || has b'E' s)) ≡ true =
              ground arith in
            let r' : text.stod (fmt.format prec d) ≡ some v =
              subst (λ t. text.stod t ≡ some v) e r in
            let p' : is_pointed (fmt.format prec d) ≡ false =
              subst (λ t. is_pointed t ≡ false) e p in
            let read : text.stod (s ++ codes ".0") ≡ some v =
              subst (λ t. text.stod (t ++ codes ".0") ≡ some v) (sym e) (f.pointed prec v p' r') in
            (v, rw added (append-IsToken s word, read), same)
      ]

  -- The text of a finite number is a word that is read back as an equal number.
  pub java_double-Shows :
      (v : D) × Shows text.stod (java_double double text fmt d) v × (fmt.equal v d ≡ true)
  unfolding java_double
  java_double-Shows =
      rw (f.no_nan, f.no_inf)
        (with_point-Shows (shortest double text fmt 17 1 [] d)
          (shortest-Found 16 1 [] (omega arith)))
