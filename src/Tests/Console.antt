-- ===== src/Tests/Console.antt =====
-- Two lines are typed, and the loop gets the first one before the second one is read.
use cpp_tcp.Base.{ℕ, ◌≡◌, refl, Bool, true, false, none, List, [], ◌∷◌, ◌++◌}
use cpp_tcp.Base.Int.{ℤ, pos, minus_one, ◌<ℤ◌}
use cpp_tcp.Base.Text.{codes}
use cpp_tcp.Sim.Console.{
  Console, make, start, try_read, may_return, push_line, Reach, here, next, starts, waits, reads,
  pushes, ends,
}
use cpp_tcp.Sim.Console.Order.{Reach-order}

abbrev typed : List (List ℕ)
typed = codes "1 ping 2 hi" ∷ codes "exit" ∷ []

abbrev both_taken : Console
both_taken = record {
  lines = [];
  stopping = true;
  started = true;
  input = [];
  held = none;
  reading = false;
  taken = typed;
  stopped = false;
}

Reach-both_taken : Reach (make typed) both_taken
unfolding make start try_read may_return push_line
Reach-both_taken =
    next
      (next
        (next
          (next
            (next
              (next
                (next (next here starts)
                  (reads (codes "1 ping 2 hi") (codes "exit" ∷ []) refl refl refl))
                (pushes (codes "1 ping 2 hi") refl refl))
              (waits (pos 5) false refl))
            (reads (codes "exit") [] refl refl refl))
          (pushes (codes "exit") refl refl))
        (waits minus_one false refl))
      (ends refl refl refl)

Reach-order_example :
    ((rest : List (List ℕ)) × (typed ≡ both_taken.taken ++ rest))
    × ((timeout_ms : ℤ) (time_up : Bool)
        → timeout_ms <ℤ pos 0
        → may_return timeout_ms time_up both_taken ≡ true
        → (try_read both_taken).1 ≡ none
        → both_taken.stopped ≡ false
        → both_taken.taken ≡ typed)
Reach-order_example = Reach-order typed both_taken Reach-both_taken
