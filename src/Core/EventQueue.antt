-- ===== src/Core/EventQueue.antt =====
-- include/nb/scheduled_event.hpp, ordered_event_queue.hpp and src/core/ordered_event_queue.cpp: events
-- in the order of their times. The type of the callbacks is a parameter.
pub mod Order
use cpp_tcp.Base.{ℕ, length, Bool, true, false, Option, none, some, List, [], ◌∷◌, if◌then◌else◌}
use cpp_tcp.Base.Int.{ℤ, ltb_ℤ}

pub record ScheduledEvent (C : Type 0) : Type 0 where
  pub time_to_occur : ℤ
  pub callback : C

module _ {C : Type 0} where
  -- The new event stands before the first one that is strictly later.
  unfoldable pub add_event : ScheduledEvent C → List (ScheduledEvent C) → List (ScheduledEvent C)
  add_event event [] = event ∷ []
  add_event event (it ∷ rest) =
      if ltb_ℤ event.time_to_occur it.time_to_occur
      then event ∷ it ∷ rest
      else it ∷ add_event event rest

  unfoldable pub get_next_event : List (ScheduledEvent C) → Option (ScheduledEvent C)
  get_next_event [] = none
  get_next_event (event ∷ rest) = some event

  -- `none` stands for a call on the empty queue, which the callers exclude.
  unfoldable pub remove_next_event :
      List (ScheduledEvent C) → Option (ScheduledEvent C × List (ScheduledEvent C))
  remove_next_event [] = none
  remove_next_event (event ∷ rest) = some (event, rest)

  abbrev pub empty : List (ScheduledEvent C) → Bool
  empty [] = true
  empty (event ∷ rest) = false

  abbrev pub size : List (ScheduledEvent C) → ℕ
  size events = length events
