-- ===== src/Interrupt/Vtimer.antt =====
-- When the virtual timers of src/kernel/interrupt.c are due.
use pinion.Base.{
  ℕ, zero, suc, ◌+◌, ◌-◌, ◌*◌, ◌/◌, ◌%◌, ◌^◌, ◌≤◌, ◌<◌, ◌≡◌, refl, ap, ◌∙◌, subst, arith, List, [],
  ◌∷◌, not, bit_and, bit_xor, Bool-cases, inl, inr, Ensures, ◌==◌, if◌then◌else◌,
}
use native.Mathlib.Nat.{pow-suc}
use pinion.Base.Bits.{bit_and_step, and_zero_below}
use pinion.Base.Bits.Xor.{
  xor_odd, xor_even, xor_double, and_double, and_negative, and_zero_left, mod_pow_step,
}
use pinion.Vm.{u32}
use pinion.Kernel.{Kernel, ev_vtimer}
use pinion.Interrupt.{timer_bits, vtimer_loop}
use pinion.Interrupt.Model.{Sane}
use pinion.Interrupt.Wakeups.Model.{Machine, Attended}
use pinion.Interrupt.Entry.Model.{fired, signals}
use pinion.Interrupt.Entry.Ticks.{Signalled, vtimer_loop-signals}

-- The digits that change with a tick.
abbrev changed : ℕ → ℕ
changed t = bit_xor (t - 1) t

-- They are the lowest ones.
record Lowest (t : ℕ) : Type 0 where
  odd : changed t % 2 ≡ 1
  small : changed t + 1 ≤ 2 * t

changed-Lowest : (n t : ℕ) → t ≤ n → 1 ≤ t → Lowest t
changed-Lowest zero t h pos = absurd (omega (arith, h, pos))
changed-Lowest (suc n) t h pos = elim (Bool-cases (t % 2 == 0)) [
  | inl even ↦
      let e : t % 2 ≡ 0 = ground (arith, even) in
      let ih = changed-Lowest n (t / 2) (omega (arith, h, pos)) (omega (arith, e, pos)) in
      record {
        odd = omega (arith, xor_even t pos e);
        small = omega (arith, xor_even t pos e, ih.small, e);
      }
  | inr odd ↦
      let o : t % 2 ≡ 1 = ground (arith, odd) in
      record { odd = omega (arith, xor_odd t o); small = omega (arith, xor_odd t o, pos) }
]

-- Digit `b` changes at the multiples of `2 ^ b`.
changed_digit : (b t : ℕ) → 1 ≤ t → (bit_and (changed t) (2 ^ b) == 0) ≡ not (t % 2 ^ b == 0)
changed_digit zero t pos =
    let odd = (changed-Lowest t t (omega arith) pos).odd in
    let one : bit_and (changed t) 1 ≡ 1 = omega (
      arith,
      bit_and_step (changed t) 1,
      odd,
      and_zero_below (changed t / 2) (changed t / 2) (omega arith),
    ) in
    let all : t % 2 ^ 0 ≡ 0 = omega arith in rw (one, all) refl
changed_digit (suc b) t pos =
    let double : 2 ^ suc b ≡ 2 * 2 ^ b = omega (arith, pow-suc 2 b) in
    let low : 2 ^ suc b % 2 ≡ 0 = omega (arith, double) in
    let half : 2 ^ suc b / 2 ≡ 2 ^ b = omega (arith, double) in
    let step : bit_and (changed t) (2 ^ suc b) ≡ 2 * bit_and (changed t / 2) (2 ^ b) = omega (
      arith,
      bit_and_step (changed t) (2 ^ suc b),
      low,
      ap (λ (x : ℕ). bit_and (changed t / 2) x) half,
    ) in
    let rest = mod_pow_step b t in
    elim (Bool-cases (t % 2 == 0)) [
      | inl even ↦
          let e : t % 2 ≡ 0 = ground (arith, even) in
          let shift : changed t / 2 ≡ changed (t / 2) = omega (arith, xor_even t pos e) in
          let ih = changed_digit b (t / 2) (omega (arith, e, pos)) in
          let same : bit_and (changed t / 2) (2 ^ b) ≡ bit_and (changed (t / 2)) (2 ^ b) =
            ap (λ (x : ℕ). bit_and x (2 ^ b)) shift in
          ground (arith, step, same, rest, e, ih)
      | inr odd ↦
          let o : t % 2 ≡ 1 = ground (arith, odd) in
          let gone : changed t / 2 ≡ 0 = omega (arith, xor_odd t o) in
          let none : bit_and (changed t / 2) (2 ^ b) ≡ 0 = rw gone (and_zero_left (2 ^ b)) in
          ground (arith, step, none, rest, o)
    ]

changed_double : (t s : ℕ) → s ≡ 2 * t → 1 ≤ t → changed s ≡ 2 * changed t + 1
changed_double t s of_t pos =
    let half : s / 2 ≡ t = omega (arith, of_t) in
    let step : changed s ≡ 1 + 2 * changed (s / 2) =
      xor_even s (omega (arith, of_t, pos)) (omega (arith, of_t)) in
    omega (arith, step, ap changed half)

-- With four zeros behind.
xor_16 : (x y : ℕ) → bit_xor (16 * x) (16 * y) ≡ 16 * bit_xor x y
xor_16 x y = omega (
  arith,
  xor_double (8 * x) (8 * y) (16 * x) (16 * y) (omega arith) (omega arith),
  xor_double (4 * x) (4 * y) (8 * x) (8 * y) (omega arith) (omega arith),
  xor_double (2 * x) (2 * y) (4 * x) (4 * y) (omega arith) (omega arith),
  xor_double x y (2 * x) (2 * y) (omega arith) (omega arith),
)

and_16 : (x y : ℕ) → bit_and (16 * x) (16 * y) ≡ 16 * bit_and x y
and_16 x y = omega (
  arith,
  and_double (8 * x) (8 * y) (16 * x) (16 * y) (omega arith) (omega arith),
  and_double (4 * x) (4 * y) (8 * x) (8 * y) (omega arith) (omega arith),
  and_double (2 * x) (2 * y) (4 * x) (4 * y) (omega arith) (omega arith),
  and_double x y (2 * x) (2 * y) (omega arith) (omega arith),
)

changed_16 : (t : ℕ) → 1 ≤ t → changed (16 * t) ≡ 16 * changed t + 15
changed_16 t pos = omega (
  arith,
  changed_double (8 * t) (16 * t) (omega arith) (omega (arith, pos)),
  changed_double (4 * t) (8 * t) (omega arith) (omega (arith, pos)),
  changed_double (2 * t) (4 * t) (omega arith) (omega (arith, pos)),
  changed_double t (2 * t) (omega arith) pos,
)

-- At 64 ticks a second a tick is 16 units of the virtual timers' time.
timer_bits-changed : (t : ℕ) → 1 ≤ t → t < 2 ^ 22 → timer_bits t 64 ≡ changed (16 * t)
unfolding timer_bits
timer_bits-changed t pos small =
    let before : (t + u32 - 1) % u32 * 2 ^ 10 % u32 / 64 ≡ 16 * (t - 1) =
      omega (arith, pos, small) in
    let now : t * 2 ^ 10 % u32 / 64 ≡ 16 * t = omega (arith, small) in
    let l = changed-Lowest t t (omega arith) pos in
    let bound : changed t < 2 ^ 23 = omega (arith, l.small, small) in
    let minus : (u32 - 16 * changed t) % u32 ≡ 16 * (2 ^ 28 - changed t) =
      omega (arith, bound, l.odd) in
    let one : bit_and (16 * changed t) (16 * (2 ^ 28 - changed t)) ≡ 16 = omega (
      arith,
      and_16 (changed t) (2 ^ 28 - changed t),
      and_negative 27 (changed t) l.odd (omega (arith, bound)),
    ) in
    rw (before, now, xor_16 (t - 1) t, minus, one) (omega (arith, bound, changed_16 t pos))

-- The events of the virtual timers from `i` on, of which timer `i` is due every `2 ^ (15 - i)` ticks.
abbrev pub due : ℕ → ℕ → ℕ → List ℕ
due zero t i = []
due (suc left) t i =
    let rest = due left t (i + 1) in if t % 2 ^ (15 - i) == 0 then ev_vtimer i ∷ rest else rest

fired-due : (left t i : ℕ) → 1 ≤ t → fired left (changed t) i ≡ due left t i
fired-due zero t i pos = refl
fired-due (suc left) t i pos =
    let ih = fired-due left t (i + 1) pos in
    let digit = changed_digit (15 - i) t pos in
    elim (Bool-cases (t % 2 ^ (15 - i) == 0)) [
      | inl hit ↦ rw (digit, hit) (ap (λ (l : List ℕ). ev_vtimer i ∷ l) ih)
      | inr miss ↦ rw (digit, miss) ih
    ]

-- At the 64 ticks a second that `init` sets, tick number `t` below `2 ^ 22` sends the event of virtual
-- timer `i`, for each `i` below 16 in their order, exactly if `2 ^ (15 - i)` divides `16 * t`, that is,
-- every `2 ^ (15 - i)` of 1024 units a second, and with each tick if that is less than a tick.
pub vtimer_loop-due :
    (t : ℕ) (m : Machine) (k : Kernel)
    → 1 ≤ t
    → t < 2 ^ 22
    → Sane m.base k
    → Attended m k
    → Ensures
        (vtimer_loop 16 (timer_bits t 64) 0 k)
        (λ _. Signalled k (signals (due 16 (16 * t) 0) m))
vtimer_loop-due t m k pos small s a =
    let events : fired 16 (timer_bits t 64) 0 ≡ due 16 (16 * t) 0 =
      ap (λ (x : ℕ). fired 16 x 0) (timer_bits-changed t pos small)
      ∙ fired-due 16 (16 * t) 0 (omega (arith, pos)) in
    subst (λ l. Ensures (vtimer_loop 16 (timer_bits t 64) 0 k) (λ _. Signalled k (signals l m)))
      events (vtimer_loop-signals 16 (timer_bits t 64) 0 m k s a)
