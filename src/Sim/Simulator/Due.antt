-- ===== src/Sim/Simulator/Due.antt =====
-- The events that the inner loop of the simulator leaves in the queue.
use cpp_tcp.Base.{
  ℕ, ◌≡◌, refl, sym, subst, ap, ◌∙◌, Bool, true, false, not, Option, none, some, List, [], ◌∷◌, All,
  if◌then◌else◌, Bool-cases, inl, inr, arith,
}
use cpp_tcp.Base.Int.{ℤ, ◌<ℤ◌, ltb_ℤ}
use cpp_tcp.Base.Double.{DoubleOps}
use cpp_tcp.Base.Text.{TextOps}
use cpp_tcp.Core.EventQueue.{ScheduledEvent, remove_next_event}
use cpp_tcp.Core.EventQueue.Order.{IsSorted, AllFrom}
use cpp_tcp.Sim.Simulator.{NodeOps, Callback, Simulator}
use cpp_tcp.Sim.Simulator.Order.{KeepsNode}
use cpp_tcp.Sim.Simulator.Clock.{IsForward, run_clock}
use cpp_tcp.Sim.Simulator.Loop.{Input, Loop, init, start, run_first, run_next, drain, step, run}

third_branch :
    {A : Type 0} (b c : Bool) (x y z : A)
    → b ≡ true
    → c ≡ true
    → (if not b then x else if c then y else z) ≡ y
third_branch true true x y z h k = refl
third_branch true false x y z h k = cc
third_branch false c x y z h k = cc

module _ {D N K : Type 0} (double : DoubleOps D) (draws : ℕ → D) (ops : NodeOps N K)
    (text : TextOps D) where
  -- Every event of the list lies in the future.
  abbrev pub AllLater : ℤ → List (ScheduledEvent (Callback K)) → Type 0
  AllLater t = All (λ e. t <ℤ e.time_to_occur)

  later_rest :
      (t u : ℤ) (q : List (ScheduledEvent (Callback K))) → t <ℤ u → AllFrom u q → AllLater t q
  later_rest t u [] h a = tt
  later_rest t u (e ∷ q) h (he, a) = (omega arith, later_rest t u q h a)

  run_first-AllLater :
      (q : List (ScheduledEvent (Callback K))) (s : Simulator D N K)
      → IsSorted q
      → run_first double draws ops text (remove_next_event q) s ≡ none
      → AllLater s.now_micros q
  unfolding remove_next_event
  run_first-AllLater [] s h e = tt
  run_first-AllLater (x ∷ q) s (a, sorted) e =
      elim (Bool-cases (ltb_ℤ s.now_micros x.time_to_occur)) [
        | inl later ↦
            let later' : s.now_micros <ℤ x.time_to_occur = ground arith in
            (later', later_rest s.now_micros x.time_to_occur q later' a)
        | inr due ↦ let r : some _ ≡ none = rw due at e in absurd cc
      ]

  drain_end :
      (l : Loop D N K) (o : Option (Simulator D N K))
      → l.draining ≡ true
      → (drain double draws ops text l o).draining ≡ false
      → (o ≡ none) × ((drain double draws ops text l o).sim ≡ l.sim)
  drain_end l none d e = (refl, refl)
  drain_end l (some s) d e = cc

  step-drain :
      (input : Input) (l : Loop D N K)
      → l.sim.running ≡ true
      → l.draining ≡ true
      → step double draws ops text input l
        ≡ drain double draws ops text l (run_next double draws ops text l.sim)
  unfolding step
  step-drain input l on d = third_branch l.sim.running l.draining _ _ _ on d

  drained_AllLater :
      (input : Input) (l : Loop D N K)
      → IsSorted l.sim.manager.sorted_events
      → l.sim.running ≡ true
      → l.draining ≡ true
      → (step double draws ops text input l).draining ≡ false
      → AllLater
          (step double draws ops text input l).sim.now_micros
          (step double draws ops text input l).sim.manager.sorted_events
  unfolding run_next
  drained_AllLater input l h on d done =
      let e = step-drain input l on d in
      let (o, same) =
        drain_end l (run_next double draws ops text l.sim) d
          (sym (ap (λ k. k.draining) e) ∙ done) in
      let same_sim : l.sim ≡ (step double draws ops text input l).sim =
        sym same ∙ sym (ap (λ k. k.sim) e) in
      subst (λ s. AllLater s.now_micros s.manager.sorted_events) same_sim
        (run_first-AllLater l.sim.manager.sorted_events l.sim h o)

  nothing-KeepsNode : KeepsNode (λ n. Unit) ops
  nothing-KeepsNode = record {
    created = λ addr. tt;
    started = λ now n h. tt;
    received = λ now bytes n h. tt;
    commanded = λ now msg n h. tt;
    timed = λ now k n h. tt;
  }

  -- Where the loop over the events that are due ends, no event is left that is due: every event in
  -- the queue is later than the clock.
  pub step-AllLater :
      (n : ℤ) (file : Option (Option (List (List ℕ)))) (s : Simulator D N K) (before : List Input)
      (input : Input) (l : Loop D N K)
      → init double draws ops text n file ≡ some s
      → All IsForward before
      → run double draws ops text before (start double draws ops text s) ≡ l
      → l.sim.running ≡ true
      → l.draining ≡ true
      → (step double draws ops text input l).draining ≡ false
      → AllLater
          (step double draws ops text input l).sim.now_micros
          (step double draws ops text input l).sim.manager.sorted_events
  step-AllLater n file s before input l e f r on d done =
      let sorted =
        (run_clock double draws ops text (λ n. Unit) nothing-KeepsNode n file s before [] e f
          tt).0 in
      drained_AllLater input l (subst (λ k. IsSorted k.sim.manager.sorted_events) r sorted) on d
        done
