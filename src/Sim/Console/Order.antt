-- ===== src/Sim/Console/Order.antt =====
-- Every line that is typed is handed over once, in order.
use mathlib.Core.List.{append_assoc, append-nil}
use cpp_tcp.Base.{
  Bool, true, false, inl, inr, ◌≡◌, refl, sym, ap, ◌∙◌, Option, none, some, List, [], ◌∷◌, ◌++◌, ℕ,
  arith, if◌then◌else◌, Bool-cases,
}
use cpp_tcp.Base.Int.{ℤ, pos, ◌<ℤ◌}
use cpp_tcp.Sim.Console.{
  Console, make, start, stop, pop_front, try_read, may_return, push_line, Step, starts, stops,
  tries, waits, reads, pushes, ends, Reach, here, next,
}

abbrev held_line : Option (List ℕ) → List (List ℕ)
held_line none = []
held_line (some line) = line ∷ []

-- What has been typed is what the loop has got, what waits in the queue, and the rest, which is what is
-- still to come unless the console has been stopped.
record Keeps (typed : List (List ℕ)) (c : Console) : Type 0 where
  rest : List (List ℕ)
  split : typed ≡ c.taken ++ (c.lines ++ rest)
  whole : c.stopped ≡ false → rest ≡ held_line c.held ++ c.input
  ended : c.stopped ≡ false → c.stopping ≡ true → rest ≡ []
  fixed : c.stopped ≡ true → c.stopping ≡ true

make-Keeps : (typed : List (List ℕ)) → Keeps typed (make typed)
unfolding make
make-Keeps typed = record {
  rest = typed;
  split = refl;
  whole = λ h. refl;
  ended = λ h k. cc;
  fixed = λ h. cc;
}

module _ (typed : List (List ℕ)) where
  pop_front-Keeps :
      (lines : List (List ℕ)) (c : Console)
      → c.lines ≡ lines
      → Keeps typed c
      → Keeps typed (pop_front lines c).0
  pop_front-Keeps [] c e k = k
  pop_front-Keeps (line ∷ lines) c e k = record {
    rest = k.rest;
    split =
        k.split
        ∙ ap (λ q. c.taken ++ (q ++ k.rest)) e
        ∙ sym (append_assoc c.taken (line ∷ []) (lines ++ k.rest));
    whole = k.whole;
    ended = k.ended;
    fixed = k.fixed;
  }

  push_line-Keeps :
      (line : List ℕ) (c : Console)
      → c.held ≡ some line
      → Keeps typed c
      → Keeps typed (push_line line c)
  unfolding push_line
  push_line-Keeps line c e k = elim (Bool-cases c.stopping) [
    | inl h ↦
        rw (push_line, h)
          (record {
            rest = k.rest;
            split = k.split;
            whole = λ s. absurd (ground (arith, k.ended s h, k.whole s, e));
            ended = λ s h'. k.ended s h;
            fixed = λ s. refl;
          })
    | inr h ↦
        let alive : c.stopped ≡ false = elim (Bool-cases c.stopped) [
          | inl s ↦ cc (k.fixed s)
          | inr s ↦ s
        ] in
        rw (push_line, h)
          (record {
            rest = c.input;
            split =
                k.split
                ∙ ap (λ q. c.taken ++ (c.lines ++ q))
                    (k.whole alive ∙ ap (λ o. held_line o ++ c.input) e)
                ∙ ap (◌++◌ c.taken) (sym (append_assoc c.lines (line ∷ []) c.input));
            whole = λ s. refl;
            ended = λ s h'. cc;
            fixed = λ s. ground (arith, k.fixed s);
          })
  ]

  if_Keeps :
      (b : Bool) (x y : Console) → Keeps typed x → Keeps typed y → Keeps typed (if b then x else y)
  if_Keeps true x y h k = h
  if_Keeps false x y h k = k

  started :
      (c : Console) → Keeps typed c → Keeps typed (record c { started = true; reading = true })
  started c k = record {
    rest = k.rest;
    split = k.split;
    whole = k.whole;
    ended = k.ended;
    fixed = k.fixed;
  }

  Step-Keeps : {c c' : Console} → Step c c' → Keeps typed c → Keeps typed c'
  unfolding start stop try_read
  Step-Keeps {c} starts k = if_Keeps c.started c _ k (started c k)
  Step-Keeps stops k = record {
    rest = k.rest;
    split = k.split;
    whole = λ h. cc;
    ended = λ h h'. cc;
    fixed = λ h. refl;
  }
  Step-Keeps {c} tries k = pop_front-Keeps c.lines c refl k
  Step-Keeps {c} (waits timeout_ms time_up h) k = pop_front-Keeps c.lines c refl k
  Step-Keeps (reads line rest going none_held e) k = record {
    rest = k.rest;
    split = k.split;
    whole = λ h. k.whole h ∙ rw (none_held, e) refl;
    ended = k.ended;
    fixed = k.fixed;
  }
  Step-Keeps {c} (pushes line going e) k = push_line-Keeps line c e k
  Step-Keeps (ends going none_held e) k = record {
    rest = k.rest;
    split = k.split;
    whole = k.whole;
    ended = λ h h'. k.whole h ∙ rw (none_held, e) refl;
    fixed = λ h. refl;
  }

  Reach-Keeps : {c c' : Console} → Reach c c' → Keeps typed c → Keeps typed c'
  Reach-Keeps here k = k
  Reach-Keeps (next r s) k = Step-Keeps s (Reach-Keeps r k)

no_lines : (lines : List (List ℕ)) (c : Console) → (pop_front lines c).1 ≡ none → lines ≡ []
no_lines [] c h = refl
no_lines (line ∷ lines) c h = cc

-- A wait without a time limit finds nothing only where the console is stopping.
waits_stopping :
    (timeout_ms : ℤ) (time_up : Bool) (c : Console)
    → timeout_ms <ℤ pos 0
    → may_return timeout_ms time_up c ≡ true
    → c.lines ≡ []
    → c.stopping ≡ true
unfolding may_return
waits_stopping timeout_ms time_up c h k e = ground arith

-- Whatever the two threads do, in whatever order: the lines that the loop has got are the first lines
-- that were typed, in their order, with none missing or repeated; and where a wait without a time
-- limit finds no line, and `stop` has not been called, the loop has got all of them.
pub Reach-order :
    (typed : List (List ℕ)) (c : Console)
    → Reach (make typed) c
    → ((rest : List (List ℕ)) × (typed ≡ c.taken ++ rest))
      × ((timeout_ms : ℤ) (time_up : Bool)
          → timeout_ms <ℤ pos 0
          → may_return timeout_ms time_up c ≡ true
          → (try_read c).1 ≡ none
          → c.stopped ≡ false
          → c.taken ≡ typed)
unfolding try_read
Reach-order typed c r =
    let k = Reach-Keeps typed r (make-Keeps typed) in
    (
      (c.lines ++ k.rest, k.split),
      λ timeout_ms time_up h may nothing alive.
          let e = no_lines c.lines c nothing in
          let none_left = k.ended alive (waits_stopping timeout_ms time_up c h may e) in
          sym (
            k.split
            ∙ ap (λ q. c.taken ++ (q ++ k.rest)) e
            ∙ ap (◌++◌ c.taken) none_left
            ∙ append-nil c.taken),
    )
