-- ===== src/Kcall/Memory.antt =====
-- The calls on paging contexts, pages and frames.
use pinion.Base.{ℕ, bit_and, bit_or, Option, none, some, ◌>>=◌, ◌>>◌}
use pinion.Vm.{page_fmt, page_ufmt, pf_mask}
use pinion.Vm.Frame.{frame_new, frame_free}
use pinion.Vm.Page.{page_get, page_set}
use pinion.Vm.Pctx.{pctx_new, pctx_free}
use pinion.Kernel.{KCmd, in_vm, load, edit, minus_one}
use pinion.Kcall.Threads.{set_eax}

abbrev or_minus_one : Option ℕ → ℕ
or_minus_one none = minus_one
or_minus_one (some n) = n

unfoldable pub kcall_newpctx : ℕ → KCmd (Unit {0})
unfolding set_eax
kcall_newpctx image = do id ← in_vm pctx_new; set_eax image (or_minus_one id)

unfoldable pub kcall_freepctx : ℕ → KCmd (Unit {0})
unfolding set_eax
kcall_freepctx image = do i ← load image; result ← in_vm (pctx_free i.ebx); set_eax image result

unfoldable pub kcall_setframe : ℕ → KCmd (Unit {0})
unfolding set_eax
kcall_setframe image = do
  i ← load image
  entry ← in_vm (page_get i.ebx)
  in_vm (page_set i.ebx (page_fmt i.ecx entry))
  set_eax image 0

unfoldable pub kcall_setflags : ℕ → KCmd (Unit {0})
unfolding set_eax
kcall_setflags image = do
  i ← load image
  entry ← in_vm (page_get i.ebx)
  in_vm (page_set i.ebx (page_fmt (page_ufmt entry) i.ecx))
  set_eax image 0

unfoldable pub kcall_getframe : ℕ → KCmd (Unit {0})
unfolding set_eax
kcall_getframe image = do
  i ← load image
  entry ← in_vm (page_get (bit_and i.ebx 0xFFFF_F000))
  set_eax image (bit_or (page_ufmt entry) (bit_and i.ebx 0xFFF))

unfoldable pub kcall_getflags : ℕ → KCmd (Unit {0})
unfolding set_eax
kcall_getflags image = do
  i ← load image
  entry ← in_vm (page_get i.ebx)
  set_eax image (bit_and entry pf_mask)

-- A frame is 32 bits wide, so the upper half of the result is 0.
unfoldable pub kcall_newframe : ℕ → KCmd (Unit {0})
unfolding edit
kcall_newframe image = do
  frame ← in_vm frame_new
  edit image (λ t. record t { eax = frame; ebx = 0 })

unfoldable pub kcall_freeframe : ℕ → KCmd (Unit {0})
unfolding set_eax
kcall_freeframe image = do i ← load image; in_vm (frame_free i.ebx); set_eax image 0

unfoldable pub kcall_takeframe : ℕ → KCmd (Unit {0})
unfolding set_eax
kcall_takeframe image = set_eax image 1
