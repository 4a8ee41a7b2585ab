-- ===== src/Vm/Page/Store.antt =====
-- `page_get` and `page_set` of src/kernel/page.c together.
use pinion.Base.{
  Bool-cases, inl, inr, ◌==◌, ==_refl, sym, ℕ, ◌/◌, ◌%◌, ◌^◌, ◌≡◌, ◌≢◌, refl, ◌∙◌, ap, bit_and,
  arith, ok, Ensures, update, ◌>>◌,
}
use pinion.Vm.{Vm, pf_pres, page_size}
use pinion.Vm.Page.{cmap, ctbl, page_get, page_set, set_ctbl, write_word}

-- The frame of the page table that translates `page`.
abbrev pub table_of : Vm → ℕ → ℕ
table_of v page = cmap v (page / 2 ^ 22) / page_size

-- The page has a page table, which is not the page directory.
pub record HasTable (v : Vm) (page : ℕ) : Type 0 where
  pub present : bit_and (cmap v (page / 2 ^ 22)) pf_pres ≢ 0
  pub apart : table_of v page ≢ v.cr3 / page_size

update_ne : {A : Type 0} (f : ℕ → A) (i j : ℕ) (x : A) → j ≢ i → update f i x j ≡ f j
update_ne f i j x ne = ground (arith, ne)

update_same : {A : Type 0} (f : ℕ → A) (i : ℕ) (x : A) → update f i x i ≡ x
update_same f i x = ground arith

pub page_set-present :
    (v : Vm) (page value : ℕ)
    → HasTable v page
    → page_set page value v ≡ ok tt (set_ctbl (page / 2 ^ 12) value v)
unfolding page_set
page_set-present v page value t = ground (arith, t.present)

pub page_get-present :
    (v : Vm) (page : ℕ)
    → bit_and (cmap v (page / 2 ^ 22)) pf_pres ≢ 0
    → page_get page v ≡ ok (ctbl v (page / 2 ^ 12)) v
unfolding page_get
page_get-present v page present = ground (arith, present)

directory_of : (page : ℕ) → page / 2 ^ 12 / 1024 ≡ page / 2 ^ 22
directory_of page = omega arith

-- A write to a page table leaves the page directory.
pub set_ctbl-cmap :
    (v : Vm) (page value j : ℕ)
    → HasTable v page
    → cmap (set_ctbl (page / 2 ^ 12) value v) j ≡ cmap v j
unfolding set_ctbl cmap write_word
set_ctbl-cmap v page value j t =
    ap (λ words. words j)
      (update_ne v.phys _ (v.cr3 / page_size) _
        (λ e. t.apart (ap (λ d. cmap v d / page_size) (sym (directory_of page)) ∙ sym e)))

-- The words of frame `g` after a write to frame `f`.
pub written : ℕ → ℕ → ℕ → Vm → ℕ → ℕ → ℕ
written f i value v g j = update v.phys f (update (v.phys f) i value) g j

written-same : (f i value : ℕ) (v : Vm) (g j : ℕ) → g ≡ f → j ≡ i → written f i value v g j ≡ value
unfolding written
written-same f i value v g j e e2 = ground (arith, e, e2)

written-ne :
    (f i value : ℕ) (v : Vm) (g j : ℕ) → ((g ≡ f) → j ≢ i) → written f i value v g j ≡ v.phys g j
unfolding written
written-ne f i value v g j ne = ground (arith, ne)

pub written-present :
    (f i value : ℕ) (v : Vm) (g j : ℕ)
    → bit_and value pf_pres ≢ 0
    → bit_and (v.phys g j) pf_pres ≢ 0
    → bit_and (written f i value v g j) pf_pres ≢ 0
unfolding written
written-present f i value v g j new old = elim (Bool-cases (g == f)) [
  | inl e ↦
      let same : g ≡ f = ground (arith, e) in
      elim (Bool-cases (j == i)) [
        | inl here ↦ rw (e, here) new
        | inr off ↦ rw (e, off) (rw (sym same) old)
      ]
  | inr ne ↦ rw ne old
]

pub written-here :
    (f i value : ℕ) (v : Vm)
    → bit_and value pf_pres ≢ 0
    → bit_and (written f i value v f i) pf_pres ≢ 0
unfolding written
written-here f i value v new = rw (==_refl f, ==_refl i) new

pub set_ctbl-cr3 : (v : Vm) (q value : ℕ) → (set_ctbl q value v).cr3 ≡ v.cr3
unfolding set_ctbl write_word
set_ctbl-cr3 v q value = refl

pub set_ctbl-ctbl :
    (v : Vm) (page value q : ℕ)
    → HasTable v page
    → ctbl (set_ctbl (page / 2 ^ 12) value v) q
      ≡ written
          (cmap v (page / 2 ^ 12 / 1024) / page_size)
          (page / 2 ^ 12 % 1024)
          value
          v
          (cmap v (q / 1024) / page_size)
          (q % 1024)
unfolding set_ctbl ctbl write_word written
set_ctbl-ctbl v page value q t =
    ap (λ d. (set_ctbl (page / 2 ^ 12) value v).phys (d / page_size) (q % 1024))
      (set_ctbl-cmap v page value (q / 1024) t)

still-present :
    (v : Vm) (page value other : ℕ)
    → HasTable v page
    → HasTable v other
    → page_get other (set_ctbl (page / 2 ^ 12) value v)
      ≡ ok
          (ctbl (set_ctbl (page / 2 ^ 12) value v) (other / 2 ^ 12))
          (set_ctbl (page / 2 ^ 12) value v)
still-present v page value other t o =
    page_get-present _ other (rw (set_ctbl-cmap v page value (other / 2 ^ 22) t) o.present)

tables-same :
    (v : Vm) (page other : ℕ)
    → cmap v (other / 2 ^ 12 / 1024) / page_size ≡ cmap v (page / 2 ^ 12 / 1024) / page_size
    → table_of v other ≡ table_of v page
tables-same v page other e =
    ap (λ d. cmap v d / page_size) (sym (directory_of other))
    ∙ e
    ∙ ap (λ d. cmap v d / page_size) (directory_of page)

-- `page_set` of a page that has a page table is read back by `page_get` of the same page.
pub page_set-page_get :
    (v : Vm) (page value : ℕ)
    → HasTable v page
    → Ensures ((page_set page value >> page_get page) v) (λ r w. r ≡ value)
page_set-page_get v page value t = rw (page_set-present v page value t) (
    rw (still-present v page value page t t)
      (set_ctbl-ctbl v page value _ t ∙ written-same _ _ value v _ _ refl refl))

-- `page_set` of a page that has a page table changes nothing that `page_get` reads of another page
-- that has one: in a table of its own, or at another place of the same table.
pub page_set-page_get_ne :
    (v : Vm) (page other value : ℕ)
    → HasTable v page
    → HasTable v other
    → other / 2 ^ 12 ≢ page / 2 ^ 12
    → (table_of v other ≡ table_of v page → other / 2 ^ 22 ≡ page / 2 ^ 22)
    → Ensures ((page_set page value >> page_get other) v) (λ r w. page_get other v ≡ ok r v)
unfolding ctbl
page_set-page_get_ne v page other value t o ne single = rw (page_set-present v page value t) (
    rw (still-present v page value other t o) (
      rw (set_ctbl-ctbl v page value (other / 2 ^ 12) t) (
        page_get-present v other o.present
        ∙ ap (λ r. ok r v)
            (sym (
              written-ne _ _ value v _ _
                (λ e low. ne (omega (arith, low, single (tables-same v page other e)))))))))
