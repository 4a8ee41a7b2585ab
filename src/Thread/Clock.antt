-- ===== src/Thread/Clock.antt =====
-- What the scheduling in src/kernel/thread.c leaves of the timer and the interrupt handlers of
-- src/kernel/interrupt.c, of the fault queue, and of the threads' `num`, `flags` and `cs`.
use pinion.Base.{ℕ, ◌≡◌, ap, ◌∙◌}
use pinion.Kernel.{Thread, Kernel}

pub record SameClock (k l : Kernel) : Type 0 where
  pub handlers : l.int_handlers ≡ k.int_handlers
  pub ticks : l.ticks ≡ k.ticks
  pub freq : l.pit_freq ≡ k.pit_freq
  pub flags : (p : ℕ) → (l.mem p).flags ≡ (k.mem p).flags
  pub num : (p : ℕ) → (l.mem p).num ≡ (k.mem p).num
  pub cs : (p : ℕ) → (l.mem p).cs ≡ (k.mem p).cs
  pub fault_link : (p : ℕ) → (l.mem p).next_fault ≡ (k.mem p).next_fault
  pub fault_head : l.fault_head ≡ k.fault_head
  pub fault_tail : l.fault_tail ≡ k.fault_tail
  pub debug_tail : l.debug_tail ≡ k.debug_tail

pub SameClock-trans : (k l m : Kernel) → SameClock k l → SameClock l m → SameClock k m
SameClock-trans k l m f g = record {
  handlers = g.handlers ∙ f.handlers;
  ticks = g.ticks ∙ f.ticks;
  freq = g.freq ∙ f.freq;
  flags = λ p. g.flags p ∙ f.flags p;
  num = λ p. g.num p ∙ f.num p;
  cs = λ p. g.cs p ∙ f.cs p;
  fault_link = λ p. g.fault_link p ∙ f.fault_link p;
  fault_head = g.fault_head ∙ f.fault_head;
  fault_tail = g.fault_tail ∙ f.fault_tail;
  debug_tail = g.debug_tail ∙ f.debug_tail;
}

-- Where the thread structures stay.
pub SameClock-mem :
    (k l : Kernel)
    → l.mem ≡ k.mem
    → l.int_handlers ≡ k.int_handlers
    → l.ticks ≡ k.ticks
    → l.pit_freq ≡ k.pit_freq
    → l.fault_head ≡ k.fault_head
    → l.fault_tail ≡ k.fault_tail
    → l.debug_tail ≡ k.debug_tail
    → SameClock k l
SameClock-mem k l em eh et ef efh eft edt = record {
  handlers = eh;
  ticks = et;
  freq = ef;
  flags = λ p. ap (λ (f : ℕ → Thread). (f p).flags) em;
  num = λ p. ap (λ (f : ℕ → Thread). (f p).num) em;
  cs = λ p. ap (λ (f : ℕ → Thread). (f p).cs) em;
  fault_link = λ p. ap (λ (f : ℕ → Thread). (f p).next_fault) em;
  fault_head = efh;
  fault_tail = eft;
  debug_tail = edt;
}
