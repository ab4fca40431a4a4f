-- ===== src/Sim/Console.antt =====
-- include/nb/console_io_thread.hpp and src/sim/console_io_thread.cpp: the thread that reads lines and
-- the loop that takes them, as steps that come in any order. Each step is what happens under one hold
-- of the mutex, or one line read from standard input.
pub mod Order
use cpp_tcp.Base.{
  Bool, true, false, not, ◌&&◌, ◌||◌, ◌≡◌, Option, none, some, List, [], ◌∷◌, ◌++◌, ℕ,
  if◌then◌else◌,
}
use cpp_tcp.Base.Int.{ℤ, pos, ltb_ℤ, ◌==ℤ◌}

-- `input` is what standard input still gives, `held` the line that the thread has read and not handed
-- over, `reading` that the thread has not ended, `taken` what the loop has got, the first line first,
-- and `stopped` that `stop` has been called.
pub record Console : Type 0 where
  pub lines : List (List ℕ)
  pub stopping : Bool
  pub started : Bool
  pub input : List (List ℕ)
  pub held : Option (List ℕ)
  pub reading : Bool
  pub taken : List (List ℕ)
  pub stopped : Bool

-- The constructor, before a standard input that gives these lines.
unfoldable pub make : List (List ℕ) → Console
make input = record {
  lines = [];
  stopping = false;
  started = false;
  input = input;
  held = none;
  reading = false;
  taken = [];
  stopped = false;
}

unfoldable pub start : Console → Console
start c = if c.started then c else record c { started = true; reading = true }

-- The thread is detached: it may go on to read.
unfoldable pub stop : Console → Console
stop c = record c { stopping = true; stopped = true }

abbrev pub empty : Console → Bool
empty c = elim c.lines [ [] ↦ true | line ∷ rest ↦ false ]

-- The front of the queue, as `tryRead` and the end of `waitForLine` take it.
abbrev pub pop_front : List (List ℕ) → Console → Console × Option (List ℕ)
pop_front [] c = (c, none)
pop_front (line ∷ rest) c = (record c { lines = rest; taken = c.taken ++ (line ∷ []) }, some line)

unfoldable pub try_read : Console → Console × Option (List ℕ)
try_read c = pop_front c.lines c

-- `waitForLine` may go on to take a line: at once with a timeout of 0, on its condition with a negative
-- one, and otherwise on its condition or when the time is up.
unfoldable pub may_return : ℤ → Bool → Console → Bool
may_return timeout_ms time_up c =
    if timeout_ms ==ℤ pos 0
    then true
    else not (empty c) || c.stopping || not (ltb_ℤ timeout_ms (pos 0)) && time_up

-- A line goes into the queue, unless the console is stopping, which ends the thread.
unfoldable pub push_line : List ℕ → Console → Console
push_line line c =
    if c.stopping
    then record c { held = none; reading = false }
    else record c { held = none; lines = c.lines ++ (line ∷ []) }

pub data Step (c : Console) : Console → Type 0 where
  starts : Step c (start c)
  stops : Step c (stop c)
  tries : Step c (try_read c).0
  waits :
      (timeout_ms : ℤ) (time_up : Bool)
      → may_return timeout_ms time_up c ≡ true
      → Step c (try_read c).0
  -- The thread: std::getline, the queue, and the end of standard input.
  reads :
      (line : List ℕ) (rest : List (List ℕ))
      → c.reading ≡ true
      → c.held ≡ none
      → c.input ≡ line ∷ rest
      → Step c (record c { input = rest; held = some line })
  pushes : (line : List ℕ) → c.reading ≡ true → c.held ≡ some line → Step c (push_line line c)
  ends :
      c.reading ≡ true
      → c.held ≡ none
      → c.input ≡ []
      → Step c (record c { stopping = true; reading = false })

pub data Reach (c : Console) : Console → Type 0 where
  here : Reach c c
  next : {c' c'' : Console} → Reach c c' → Step c' c'' → Reach c c''
