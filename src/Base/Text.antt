-- ===== src/Base/Text.antt =====
-- `std::string` as its bytes, and the source's splitting of a line at its spaces. The conversions of
-- the standard library between numbers and text are a parameter, `TextOps`.
use Prim.Native.Nat.{ℕ}
use Prim.Native.Char.{code}
use Prim.Native.String.{String}
use mathlib.Core.Path.{◌≡◌, refl, ap, ◌∙◌}
use mathlib.Core.Logic.{◌≢◌}
use mathlib.Core.Bool.{Bool, true, false, not, ◌&&◌}
use mathlib.Core.Option.{Option}
use mathlib.Core.List.{List, [], ◌∷◌, ◌++◌, append-nil, append_assoc}
use native.Mathlib.Omega.{arith}
use cpp_tcp.Base.Tests.{◌==◌, if◌then◌else◌}
use cpp_tcp.Base.Lists.{All}
use cpp_tcp.Base.Int.{ℤ}

-- The bytes of a literal.
abbrev pub codes : String → List ℕ
codes String.[] = []
codes (String.◌∷◌ c s) = code c ∷ codes s

-- The comparison of two strings.
abbrev pub bytes_eq : List ℕ → List ℕ → Bool
bytes_eq [] [] = true
bytes_eq [] (y ∷ ys) = false
bytes_eq (x ∷ xs) [] = false
bytes_eq (x ∷ xs) (y ∷ ys) = x == y && bytes_eq xs ys

pub bytes_eq_refl : (xs : List ℕ) → bytes_eq xs xs ≡ true
bytes_eq_refl [] = refl
bytes_eq_refl (x ∷ xs) = ground (arith, bytes_eq_refl xs)

-- `stoi`, `stol`, `stoll` and `stod` give `none` where they throw. `to_string` is what `operator<<`
-- and `std::to_string` write, and `inet_pton` is whether that reads a text as an IPv4 address.
pub record TextOps (D : Type 0) : Type 0 where
  pub to_string : ℤ → List ℕ
  pub stoi : List ℕ → Option ℤ
  pub stol : List ℕ → Option ℤ
  pub stoll : List ℕ → Option ℤ
  pub stod : List ℕ → Option D
  pub inet_pton : List ℕ → Bool

-- The loop over the characters, with the token read so far.
unfoldable pub split_loop : List ℕ → List ℕ → List (List ℕ)
split_loop cur [] = cur ∷ []
split_loop cur (c ∷ s) =
    let next = cur ∷ split_loop [] s in
    let more = split_loop (cur ++ (c ∷ [])) s in if c == b' ' then next else more

abbrev keep_token : List ℕ → List (List ℕ) → List (List ℕ)
keep_token [] [] = []
keep_token w ws = w ∷ ws

-- The loop that drops empty tokens from the back.
unfoldable pub trim : List (List ℕ) → List (List ℕ)
trim [] = []
trim (w ∷ ws) = keep_token w (trim ws)

abbrev or_empty : List (List ℕ) → List (List ℕ)
or_empty [] = [] ∷ []
or_empty (w ∷ ws) = w ∷ ws

-- splitSpaces: never without a token.
unfoldable pub split_spaces : List ℕ → List (List ℕ)
split_spaces line = or_empty (trim (split_loop [] line))

-- The first token. Every list that `split_spaces` returns has one.
abbrev pub first_token : List (List ℕ) → List ℕ
first_token [] = []
first_token (w ∷ ws) = w

-- The tokens with a space between each two.
abbrev pub join : List (List ℕ) → List ℕ
join [] = []
join (w ∷ []) = w
join (w ∷ v ∷ ws) = w ++ (b' ' ∷ join (v ∷ ws))

abbrev pub NoSpace : List ℕ → Type 0
NoSpace = All (λ c. c ≢ b' ')

abbrev pub IsToken : List ℕ → Type 0
IsToken w = NoSpace w × (w ≢ [])

-- The test for a word that the source spells.
abbrev pub no_space : List ℕ → Bool
no_space [] = true
no_space (c ∷ w) = not (c == b' ') && no_space w

no_space→NoSpace : (w : List ℕ) → no_space w ≡ true → NoSpace w
no_space→NoSpace [] h = tt
no_space→NoSpace (c ∷ w) h = (ground arith, no_space→NoSpace w (ground arith))

pub word-IsToken : (c : ℕ) (w : List ℕ) → no_space (c ∷ w) ≡ true → IsToken (c ∷ w)
word-IsToken c w h = (no_space→NoSpace (c ∷ w) h, cc)

split_loop-NoSpace :
    (cur w : List ℕ) (rest : List ℕ)
    → NoSpace w
    → split_loop cur (w ++ rest) ≡ split_loop (cur ++ w) rest
unfolding split_loop
split_loop-NoSpace cur [] rest h = rw append-nil
split_loop-NoSpace cur (c ∷ w) rest (hc, h) =
    let step = split_loop-NoSpace (cur ++ (c ∷ [])) w rest h in
    ground (arith, step, append_assoc cur (c ∷ []) w)

split_loop-join :
    (w : List ℕ) (ws : List (List ℕ))
    → NoSpace w
    → All IsToken ws
    → split_loop [] (join (w ∷ ws)) ≡ w ∷ ws
unfolding split_loop
split_loop-join w [] h t = let e = split_loop-NoSpace [] w [] h in rw append-nil at e
split_loop-join w (v ∷ ws) h t =
    split_loop-NoSpace [] w (b' ' ∷ join (v ∷ ws)) h
    ∙ ap (λ ts. w ∷ ts) (split_loop-join v ws t.0.0 t.1)

trim-IsToken : (ws : List (List ℕ)) → All IsToken ws → trim ws ≡ ws
unfolding trim
trim-IsToken [] t = refl
trim-IsToken ([] ∷ ws) t = absurd (t.0.1 refl)
trim-IsToken ((c ∷ w) ∷ ws) t = rw (trim-IsToken ws t.1) refl

-- Tokens without spaces that are joined are split again.
pub split_spaces-join :
    (w : List ℕ) (ws : List (List ℕ))
    → IsToken w
    → All IsToken ws
    → split_spaces (join (w ∷ ws)) ≡ w ∷ ws
unfolding split_spaces
split_spaces-join w ws h t = rw (split_loop-join w ws h.0 t, trim-IsToken (w ∷ ws) (h, t)) refl
