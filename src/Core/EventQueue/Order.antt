-- ===== src/Core/EventQueue/Order.antt =====
-- The order of the events in the queue.
use mathlib.Core.List.{Perm}
use mathlib.Core.List.Perm
use cpp_tcp.Base.{
  ◌≡◌, refl, inl, inr, some, List, [], ◌∷◌, ◌++◌, All, arith, Bool-cases, if◌then◌else◌,
}
use cpp_tcp.Base.Int.{ℤ, ◌≤ℤ◌, ◌<ℤ◌, ltb_ℤ}
use cpp_tcp.Core.EventQueue.{ScheduledEvent, add_event, get_next_event, remove_next_event}

module _ {C : Type 0} where
  -- No event of the list is earlier than `t`.
  abbrev pub AllFrom : ℤ → List (ScheduledEvent C) → Type 0
  AllFrom t = All (λ e. t ≤ℤ e.time_to_occur)

  abbrev pub IsSorted : List (ScheduledEvent C) → Type 0
  IsSorted [] = Unit {0}
  IsSorted (e ∷ q) = AllFrom e.time_to_occur q × IsSorted q

  AllFrom-trans : (s t : ℤ) (q : List (ScheduledEvent C)) → s ≤ℤ t → AllFrom t q → AllFrom s q
  AllFrom-trans s t [] h a = tt
  AllFrom-trans s t (e ∷ q) h (he, a) = (omega arith, AllFrom-trans s t q h a)

  AllFrom-add_event :
      (t : ℤ) (e : ScheduledEvent C) (q : List (ScheduledEvent C))
      → t ≤ℤ e.time_to_occur
      → AllFrom t q
      → AllFrom t (add_event e q)
  unfolding add_event
  AllFrom-add_event t e [] h a = (h, tt)
  AllFrom-add_event t e (x ∷ q) h (hx, a) = ground (arith, AllFrom-add_event t e q h a)

  -- Adding an event to a sorted queue leaves it sorted.
  pub add_event-IsSorted :
      (e : ScheduledEvent C) (q : List (ScheduledEvent C)) → IsSorted q → IsSorted (add_event e q)
  unfolding add_event
  add_event-IsSorted e [] s = (tt, tt)
  add_event-IsSorted e (x ∷ q) (a, s) = elim (Bool-cases (ltb_ℤ e.time_to_occur x.time_to_occur)) [
    | inl lt ↦
        rw lt
          ((ground arith, AllFrom-trans e.time_to_occur x.time_to_occur q (ground arith) a), (a, s))
    | inr ge ↦
        rw ge (AllFrom-add_event x.time_to_occur e q (ground arith) a, add_event-IsSorted e q s)
  ]

  -- The events that are due at `t`, and the others, in the order of the queue.
  abbrev pub up_to : ℤ → List (ScheduledEvent C) → List (ScheduledEvent C)
  up_to t [] = []
  up_to t (x ∷ q) = if ltb_ℤ t x.time_to_occur then up_to t q else x ∷ up_to t q

  abbrev pub after : ℤ → List (ScheduledEvent C) → List (ScheduledEvent C)
  after t [] = []
  after t (x ∷ q) = if ltb_ℤ t x.time_to_occur then x ∷ after t q else after t q

  AllFrom-later :
      (t u : ℤ) (q : List (ScheduledEvent C))
      → t <ℤ u
      → AllFrom u q
      → (up_to t q ≡ []) × (after t q ≡ q)
  AllFrom-later t u [] h a = (refl, refl)
  AllFrom-later t u (x ∷ q) h (hx, a) = ground (arith, AllFrom-later t u q h a)

  -- In a sorted queue a new event stands behind every event of its own time or an earlier one, and
  -- before all later ones, and these keep their order.
  pub add_event-split :
      (e : ScheduledEvent C) (q : List (ScheduledEvent C))
      → IsSorted q
      → add_event e q ≡ up_to e.time_to_occur q ++ (e ∷ after e.time_to_occur q)
  unfolding add_event
  add_event-split e [] s = refl
  add_event-split e (x ∷ q) (a, s) =
      ground (arith, add_event-split e q s, AllFrom-later e.time_to_occur x.time_to_occur q)

  -- The queue after `add_event` holds the events of the queue before and the new one, each as
  -- often, in some order.
  add_event-perm :
      (e : ScheduledEvent C) (q : List (ScheduledEvent C)) → Perm (add_event e q) (e ∷ q)
  unfolding add_event
  add_event-perm e [] = Perm.refl (e ∷ [])
  add_event-perm e (x ∷ q) = elim (Bool-cases (ltb_ℤ e.time_to_occur x.time_to_occur)) [
    | inl lt ↦ rw lt (Perm.refl (e ∷ x ∷ q))
    | inr ge ↦ rw ge (Perm.trans (Perm.cons x (add_event-perm e q)) (Perm.swap e x q))
  ]

  -- The queue that a sequence of `add_event` calls builds from an empty one.
  unfoldable pub add_all :
      List (ScheduledEvent C) → List (ScheduledEvent C) → List (ScheduledEvent C)
  add_all [] q = q
  add_all (e ∷ es) q = add_all es (add_event e q)

  add_all-IsSorted : (es q : List (ScheduledEvent C)) → IsSorted q → IsSorted (add_all es q)
  unfolding add_all
  add_all-IsSorted [] q s = s
  add_all-IsSorted (e ∷ es) q s = add_all-IsSorted es (add_event e q) (add_event-IsSorted e q s)

  first_out :
      (q : List (ScheduledEvent C)) (e : ScheduledEvent C) (rest : List (ScheduledEvent C))
      → IsSorted q
      → remove_next_event q ≡ some (e, rest)
      → (get_next_event q ≡ some e) × AllFrom e.time_to_occur rest × IsSorted rest
  unfolding remove_next_event get_next_event
  first_out [] e rest s h = cc
  first_out (x ∷ q) e rest s h =
      let hx : x ≡ e = ground arith in
      let hq : q ≡ rest = ground arith in rw (← hx, ← hq) (refl, s.0, s.1)

  -- Whatever was added in whatever order, the event that is removed is the first one that
  -- `get_next_event` shows, nothing left in the queue is earlier, and what is left is sorted.
  pub remove_next_event-add_all :
      (es : List (ScheduledEvent C)) (e : ScheduledEvent C) (rest : List (ScheduledEvent C))
      → remove_next_event (add_all es []) ≡ some (e, rest)
      → (get_next_event (add_all es []) ≡ some e) × AllFrom e.time_to_occur rest × IsSorted rest
  remove_next_event-add_all es e rest h =
      first_out (add_all es []) e rest (add_all-IsSorted es [] tt) h
