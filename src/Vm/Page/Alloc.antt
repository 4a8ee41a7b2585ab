-- ===== src/Vm/Page/Alloc.antt =====
-- What `mem_alloc` of src/kernel/mem.c leaves in the page tables.
use pinion.Base.{Run, crash, panic, ℕ, ◌≤◌, ◌<◌, ◌≡◌, ok, Ensures, true}
use pinion.Vm.{Vm}
use pinion.Vm.Page.{cmap, mapped}
use pinion.Vm.Page.Store.{HasTable}

-- A command panics, or returns with `P`.
abbrev pub OrPanics : {A : Type 0} → Run Vm A → (A → Vm → Type 0) → Type 0
OrPanics (ok a w) P = P a w
OrPanics (crash c) P = c ≡ panic

-- A command that returns.
pub OrPanics-returns :
    {A : Type 0} (P : A → Vm → Type 0) (r : Run Vm A)
    → OrPanics r P
    → Ensures r (λ _ _. Unit {0})
    → Ensures r P
OrPanics-returns P (ok a w) p u = p
OrPanics-returns P (crash c) p u = u

-- The page directory is the same, and what was mapped is so still.
record Grown (v w : Vm) : Type 0 where
  root : w.cr3 ≡ v.cr3
  directory : (j : ℕ) → cmap w j ≡ cmap v j
  kept : (p : ℕ) → HasTable v p → mapped v p ≡ true → mapped w p ≡ true

-- A new frame changes no page table.
SameTables : Vm → Vm → Type 0
SameTables v w = (w.phys ≡ v.phys) × (w.cr3 ≡ v.cr3)

-- The addresses from `a` on and below `b` are mapped; they have page tables.
abbrev MappedFrom : ℕ → ℕ → Vm → Type 0
MappedFrom a b v = (p : ℕ) → a ≤ p → p < b → mapped v p ≡ true

abbrev pub HasTables : ℕ → ℕ → Vm → Type 0
HasTables a b v = (p : ℕ) → a ≤ p → p < b → HasTable v p
