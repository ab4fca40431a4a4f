-- ===== src/Emu/Emulator/Loop/Waiting.antt =====
-- How long the loop of an emulator waits.
use cpp_tcp.Base.{ℕ, ◌+◌, ◌-◌, ◌*◌, ◌/◌, ◌≤◌, ◌≡◌, true, some, Bool-cases, inl, inr, arith}
use cpp_tcp.Base.Int.{ℤ, pos, negsuc, minus_one, ◌+ℤ◌, ◌-ℤ◌, ◌≤ℤ◌, ◌==ℤ◌, ==ℤ→eq, max_ℤ, +ℤ_parts}
use cpp_tcp.Core.EventQueue.{ScheduledEvent}
use cpp_tcp.Emu.Emulator.Loop.{wait_till, waits, timeout_ms}

-- The timeout is enough to reach the deadline, and less than a millisecond too long.
abbrev pub Reaches : ℤ → ℤ → ℤ → Type 0
Reaches deadline clock timeout =
    (n : ℕ) × (timeout ≡ pos n)
    × (deadline ≤ℤ clock +ℤ pos (n * 1000))
    × (clock +ℤ pos (n * 1000) ≤ℤ max_ℤ deadline clock +ℤ pos 999)

rounds_up : (d : ℕ) → (d ≤ (d + 999) / 1000 * 1000) × ((d + 999) / 1000 * 1000 ≤ d + 999)
rounds_up d = omega arith

timeout_ms_lem :
    (d c : ℕ) → d ≤ c + 2147483647000 → timeout_ms (pos d) (pos c) ≡ pos ((d - c + 999) / 1000)
unfolding timeout_ms ◌+ℤ◌ ◌-ℤ◌
timeout_ms_lem d c h = ground arith

past :
    (d c n : ℕ)
    → n * 1000 ≤ d - c + 999
    → pos c +ℤ pos (n * 1000) ≤ℤ max_ℤ (pos d) (pos c) +ℤ pos 999
unfolding ◌+ℤ◌
past d c n h = ground arith

timeout_ms-Reaches :
    (deadline clock : ℤ)
    → pos 0 ≤ℤ deadline
    → pos 0 ≤ℤ clock
    → deadline ≤ℤ clock +ℤ pos 2147483647000
    → Reaches deadline clock (timeout_ms deadline clock)
timeout_ms-Reaches (pos d) (pos c) h k far =
    let r = rounds_up (d - c) in
    let n = (d - c + 999) / 1000 in
    (
      n,
      timeout_ms_lem d c (omega (arith, far, +ℤ_parts (pos c) (pos 2147483647000))),
      omega (arith, r, +ℤ_parts (pos c) (pos (n * 1000))),
      past d c n r.1,
    )
timeout_ms-Reaches (pos d) (negsuc c) h k far = absurd (omega arith)
timeout_ms-Reaches (negsuc d) clock h k far = absurd (omega arith)

widen : (a b c x : ℤ) → a ≤ℤ b → x ≤ℤ max_ℤ a c +ℤ pos 999 → x ≤ℤ max_ℤ b c +ℤ pos 999
widen a b c x h k = grind (arith, +ℤ_parts (max_ℤ a c) (pos 999), +ℤ_parts (max_ℤ b c) (pos 999))

-- With an event in the queue.
module _ {C : Type 0} (next : ScheduledEvent C) (defer_till w p : ℤ)
    (later : pos 0 ≤ℤ next.time_to_occur) (start : pos 0 ≤ℤ w) (passes : w ≤ℤ p)
    (deferred : minus_one ≤ℤ defer_till) where
  abbrev till : ℤ
  till = wait_till (some next) defer_till w

  -- The wait is up to the event or the deferred command, whichever comes first.
  wait_till_some :
      waits till p ≡ true
      → (pos 0 ≤ℤ till) × (till ≤ℤ next.time_to_occur) × (pos 0 ≤ℤ defer_till → till ≤ℤ defer_till)
  unfolding wait_till waits
  wait_till_some h = elim (Bool-cases (defer_till ==ℤ minus_one)) [
    | inl e ↦
        let d = ==ℤ→eq defer_till minus_one e in
        rw e (later, ground arith, λ k. absurd (ground (arith, d)))
    | inr e ↦ elim (Bool-cases (defer_till ==ℤ pos 0)) [
      | inl e' ↦ absurd (ground arith)
      | inr e' ↦ rw (e, e') (ground arith, ground arith, λ k. ground arith)
    ]
  ]

  -- Where the loop waits with an event in its queue, `poll` gets a timeout that is not negative. The
  -- clock's reading with the timeout added lies less than a millisecond after the time of the event,
  -- and of the command that is deferred, if there is one, or after that reading where such a time has
  -- passed, and not before the time of `wait_till`. The times and the readings of the clock are not
  -- negative, the clock does not go back while the wait is worked out, and the wait is at most
  -- 2 ^ 31 - 1 milliseconds.
  pub waits-Reaches :
      (c : ℤ)
      → pos 0 ≤ℤ c
      → till ≤ℤ c +ℤ pos 2147483647000
      → waits till p ≡ true
      → (n : ℕ) × (timeout_ms till c ≡ pos n)
        × (c +ℤ pos (n * 1000) ≤ℤ max_ℤ next.time_to_occur c +ℤ pos 999)
        × (pos 0 ≤ℤ defer_till → c +ℤ pos (n * 1000) ≤ℤ max_ℤ defer_till c +ℤ pos 999)
        × (till ≤ℤ c +ℤ pos (n * 1000))
  waits-Reaches c k far h =
      let (lo, hi, hi') = wait_till_some h in
      let (n, e, reach, bound) = timeout_ms-Reaches till c lo k far in
      (
        n,
        e,
        widen till next.time_to_occur c (c +ℤ pos (n * 1000)) hi bound,
        λ d. widen till defer_till c (c +ℤ pos (n * 1000)) (hi' d) bound,
        reach,
      )
