-- ===== src/Vm/Pctx/Slot.antt =====
-- The search for a free entry of a table, of `pctx_new` in src/kernel/pctx.c and of `thread_alloc`
-- in src/kernel/thread.c.
use pinion.Base.{
  ℕ, zero, suc, ◌+◌, ◌≤◌, ◌<◌, ◌≡◌, ◌≢◌, inl, inr, arith, Option, none, some, ◌==◌, Bool-cases,
}
use pinion.Vm.Pctx.{free_slot}

-- What the search from `i` on among `left` entries may find: nothing, if no entry is free, or the
-- first free one.
abbrev pub IsFirst : ℕ → ℕ → (ℕ → ℕ) → Option ℕ → Type 0
IsFirst left i table none = (j : ℕ) → i ≤ j → j < i + left → table j ≢ 0
IsFirst left i table (some s) =
    (i ≤ s) × (s < i + left) × (table s ≡ 0) × ((j : ℕ) → i ≤ j → j < s → table j ≢ 0)

IsFirst-suc :
    (left i : ℕ) (table : ℕ → ℕ) (found : Option ℕ)
    → table i ≢ 0
    → IsFirst left (i + 1) table found
    → IsFirst (suc left) i table found
IsFirst-suc left i table none used f = λ j low high. elim (Bool-cases (j == i)) [
  | inl same ↦ let e : j ≡ i = ground arith in rw e used
  | inr later ↦ f j (ground arith) (omega arith)
]
IsFirst-suc left i table (some s) used f = (
  omega (arith, f.0),
  omega (arith, f.1),
  f.2,
  λ j low high. elim (Bool-cases (j == i)) [
    | inl same ↦ let e : j ≡ i = ground arith in rw e used
    | inr later ↦ f.3 j (ground arith) high
  ],
)

-- The search of a table finds the first free entry, and finds none only if no entry is free.
pub free_slot-IsFirst : (left i : ℕ) (table : ℕ → ℕ) → IsFirst left i table (free_slot left i table)
unfolding free_slot
free_slot-IsFirst zero i table = λ j low high. absurd (omega arith)
free_slot-IsFirst (suc left) i table = elim (Bool-cases (table i == 0)) [
  | inl free ↦ rw free (omega arith, omega arith, ground arith, λ j low high. absurd (omega arith))
  | inr used ↦ rw used (
      IsFirst-suc left i table (free_slot left (i + 1) table) (ground arith)
        (free_slot-IsFirst left (i + 1) table))
]
