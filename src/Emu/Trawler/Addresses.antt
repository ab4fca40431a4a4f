-- ===== src/Emu/Trawler/Addresses.antt =====
-- The address that a new node gets.
use cpp_tcp.Base.{
  ℕ, zero, suc, ◌+◌, ◌≤◌, ◌<◌, ◌≡◌, ◌⊎◌, inl, inr, refl, ◌∙◌, subst, none, some, List, Option-cases,
  arith,
}
use native.Mathlib.Decide.{ℕ_discrete}
use cpp_tcp.Base.Int.{ℤ, pos, minus_one}
use cpp_tcp.Emu.Trawler.{EmulatedNode, get_emulated_node, free_from, free_fish_addr}

-- The address is in use.
abbrev pub Taken : ℕ → List (ℤ × EmulatedNode) → Type 0
Taken i nodes = (n : EmulatedNode) × (get_emulated_node (pos i) nodes ≡ some n)

-- What the loop from `i` on returns: an address that is free, where all below it from `i` on are taken,
-- or -1 where all are.
abbrev FirstFree : ℕ → ℕ → List (ℤ × EmulatedNode) → ℤ → Type 0
FirstFree left i nodes r =
    ((k : ℕ) × (r ≡ pos k)
      × (i ≤ k)
      × (k < i + left)
      × (get_emulated_node (pos k) nodes ≡ none)
      × ((j : ℕ) → i ≤ j → j < k → Taken j nodes))
    ⊎ ((r ≡ minus_one) × ((j : ℕ) → i ≤ j → j < i + left → Taken j nodes))

-- An address is `i` or comes behind it.
Taken-from :
    (i k : ℕ) (nodes : List (ℤ × EmulatedNode)) (n : EmulatedNode)
    → get_emulated_node (pos i) nodes ≡ some n
    → ((j : ℕ) → suc i ≤ j → j < k → Taken j nodes)
    → (j : ℕ) → i ≤ j
    → j < k
    → Taken j nodes
Taken-from i k nodes n e rest j lo hi = elim (ℕ_discrete i j) [
  | yes same ↦ subst (λ m. Taken m nodes) same (n, e)
  | no other ↦ rest j (omega arith) hi
]

free_here :
    (left i : ℕ) (nodes : List (ℤ × EmulatedNode))
    → get_emulated_node (pos i) nodes ≡ none
    → free_from (suc left) i nodes ≡ pos i
unfolding free_from
free_here left i nodes e = ground arith

free_on :
    (left i : ℕ) (nodes : List (ℤ × EmulatedNode)) (n : EmulatedNode)
    → get_emulated_node (pos i) nodes ≡ some n
    → free_from (suc left) i nodes ≡ free_from left (suc i) nodes
unfolding free_from
free_on left i nodes n e = ground arith

free_from-FirstFree :
    (left i : ℕ) (nodes : List (ℤ × EmulatedNode)) → FirstFree left i nodes (free_from left i nodes)
unfolding free_from
free_from-FirstFree zero i nodes = inr (refl, λ j lo hi. absurd (omega arith))
free_from-FirstFree (suc left) i nodes = elim (Option-cases (get_emulated_node (pos i) nodes)) [
  | inl free ↦ inl (
    i,
    free_here left i nodes free,
    omega arith,
    omega arith,
    free,
    λ j lo hi. absurd (omega arith),
  )
  | inr (n, taken) ↦ elim (free_from-FirstFree left (suc i) nodes) [
    | inl (k, e, lo, hi, free, below) ↦ inl (
      k,
      free_on left i nodes n taken ∙ e,
      omega (arith, lo),
      omega (arith, hi),
      free,
      Taken-from i k nodes n taken below,
    )
    | inr (e, all) ↦ inr (
      free_on left i nodes n taken ∙ e,
      λ j lo hi.
          Taken-from i (i + suc left) nodes n taken (λ m lo' hi'. all m lo' (omega arith)) j lo hi,
    )
  ]
]

-- A new node gets the lowest address from 0 to 254 that is not in use, and is refused by -1 only where
-- all of them are in use.
pub free_fish_addr-lowest :
    (nodes : List (ℤ × EmulatedNode))
    → ((k : ℕ) × (free_fish_addr nodes ≡ pos k)
        × (k < 255)
        × (get_emulated_node (pos k) nodes ≡ none)
        × ((j : ℕ) → j < k → Taken j nodes))
      ⊎ ((free_fish_addr nodes ≡ minus_one) × ((j : ℕ) → j < 255 → Taken j nodes))
unfolding free_fish_addr
free_fish_addr-lowest nodes = elim (free_from-FirstFree 255 0 nodes) [
  | inl (k, e, lo, hi, free, below) ↦ inl (k, e, hi, free, λ j h. below j (omega arith) h)
  | inr (e, all) ↦ inr (e, λ j h. all j (omega arith) h)
]
