-- ===== src/Interrupt/Entry/Ticks.antt =====
-- The virtual timers of src/kernel/interrupt.c: the events that a tick sends.
use pinion.Base.{
  ℕ, zero, suc, ◌+◌, ◌-◌, ◌^◌, ◌≡◌, refl, ◌∙◌, ◌<◌, arith, List, [], ◌∷◌, bit_and, Bool-cases, inl,
  inr, Ensures, Ensures-bind, Ensures-mono, ◌==◌, pure, ◌>>◌,
}
use pinion.Kernel.{Kernel, ev_count, ev_vtimer, minus_one}
use pinion.Thread.Clock.{SameClock, SameClock-trans, SameClock-mem}
use pinion.Thread.Event.{event_send}
use pinion.Interrupt.{vtimer_loop}
use pinion.Interrupt.Model.{Sane}
use pinion.Interrupt.Wakeups.Model.{Machine, Attended, signal, woken, model_step}
use pinion.Interrupt.Wakeups.Follows.{event_send-Attended}
use pinion.Interrupt.Entry.Model.{fired, signals}

woken-running : (n : ℕ) (xs : List ℕ) (m : Machine) → (woken n xs m).base.running ≡ m.base.running
woken-running n [] m = refl
woken-running n (x ∷ xs) m = refl

-- Events that are sent do not change who runs.
pub signals-running : (ns : List ℕ) (m : Machine) → (signals ns m).base.running ≡ m.base.running
signals-running [] m = refl
signals-running (n ∷ ns) m =
    signals-running ns (model_step (signal n) m) ∙ woken-running n (m.waiters n) m

-- `l` is what `m` describes, but for who runs, and its timer is that of `k`.
abbrev pub Signalled : Kernel → Machine → Kernel → Type 0
Signalled k m l = Sane m.base l × Attended m l × SameClock k l

from_Signalled : (k l x : Kernel) (m : Machine) → SameClock k l → Signalled l m x → Signalled k m x
from_Signalled k l x m c h = (h.0, h.1, SameClock-trans k l x c h.2)

pub vtimer_loop-signals :
    (left time i : ℕ) (m : Machine) (k : Kernel)
    → Sane m.base k
    → Attended m k
    → Ensures (vtimer_loop left time i k) (λ _. Signalled k (signals (fired left time i) m))
unfolding vtimer_loop
vtimer_loop-signals zero time i m k s a =
    (s, a, SameClock-mem k k refl refl refl refl refl refl refl)
vtimer_loop-signals (suc left) time i m k s a =
    elim (Bool-cases (bit_and time (2 ^ (15 - i)) == 0)) [
      | inl off ↦ rw off (vtimer_loop-signals left time (i + 1) m k s a)
      | inr on ↦
          let n = ev_vtimer i in
          let m' = model_step (signal n) m in
          let small : n < ev_count = omega arith in
          rw on (
            Ensures-bind (λ _. Signalled k m') _ ((event_send minus_one n >> pure tt) k) _
              (Ensures-bind (λ _. Signalled k m') (λ _. Signalled k m') (event_send minus_one n k) _
                (event_send-Attended m k n (m.waiters n) refl small s a) (λ _ l h. h))
              (λ _ l h.
                Ensures-mono _ _ (vtimer_loop left time (i + 1) l)
                  (vtimer_loop-signals left time (i + 1) m' l h.0 h.1)
                  (λ _ x j. from_Signalled k l x _ h.2 j)))
    ]
