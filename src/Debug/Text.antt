-- ===== src/Debug/Text.antt =====
-- What `debug_string` of src/kernel/debug.c sends to the serial port.
use pinion.Base.{
  ℕ, zero, suc, ◌+◌, ◌^◌, ◌≤◌, ◌<◌, ◌≡◌, refl, ◌≢◌, ◌∙◌, sym, ap, subst, arith, List, [], ◌∷◌,
  length, Bool-cases, inl, inr, ◌==◌, if◌then◌else◌, Ensures, Ensures-bind, Ensures-mono, bit_and,
  ==_ne,
}
use pinion.Bytes.{Bytes}
use pinion.Debug.{Serial, wait_ready, put_char, debug_char, string_loop, debug_string}

-- The string at `p` has the characters `cs`.
abbrev pub IsString : Bytes → ℕ → List ℕ → Type 0
IsString b p [] = b p ≡ 0
IsString b p (c ∷ cs) = (b p ≡ c) × (c ≢ 0) × IsString b (p + 1) cs

-- The writes to the port for a string, newest first, before those in `ports`; a line feed is followed
-- by a carriage return.
abbrev pub sent : List ℕ → List (ℕ × ℕ) → List (ℕ × ℕ)
sent [] ports = ports
sent (c ∷ cs) ports =
    sent cs (if c == 10 then (0x3F8, 13) ∷ (0x3F8, 10) ∷ ports else (0x3F8, c) ∷ ports)

-- The port is ready at each read.
abbrev pub Ready : Serial → Type 0
Ready s = (1 ≤ s.patience) × ((i : ℕ) → bit_and (s.status i) 0x20 ≢ 0)

-- `ports` has been written, and the port is as ready as before.
abbrev Wrote : List (ℕ × ℕ) → Serial → Serial → Type 0
Wrote ports s t = (t.ports ≡ ports) × (t.status ≡ s.status) × (t.patience ≡ s.patience)

wait_ready-Wrote :
    (fuel : ℕ) (s : Serial)
    → 1 ≤ fuel
    → ((i : ℕ) → bit_and (s.status i) 0x20 ≢ 0)
    → Ensures (wait_ready fuel s) (λ _ t. Wrote s.ports s t)
unfolding wait_ready
wait_ready-Wrote zero s some ready = absurd (omega arith)
wait_ready-Wrote (suc fuel) s some ready =
    rw (==_ne (bit_and (s.status s.reads) 0x20) 0 (ready s.reads)) (refl, refl, refl)

put_char-Wrote :
    (c : ℕ) (s : Serial)
    → Ready s
    → Ensures (put_char c s) (λ _ t. Wrote ((0x3F8, c) ∷ s.ports) s t)
unfolding put_char
put_char-Wrote c s h =
    Ensures-bind (λ _ t. Wrote s.ports s t) _ (wait_ready s.patience s) _
      (wait_ready-Wrote s.patience s h.0 h.1) (λ _ t g. (ap (λ ps. (0x3F8, c) ∷ ps) g.0, g.1, g.2))

Ready-same : (ports : List (ℕ × ℕ)) (s t : Serial) → Wrote ports s t → Ready s → Ready t
Ready-same ports s t w h = (
  subst (λ n. 1 ≤ n) (sym w.2) h.0,
  subst (λ (f : ℕ → ℕ). (i : ℕ) → bit_and (f i) 0x20 ≢ 0) (sym w.1) h.1,
)

debug_char-Wrote :
    (c : ℕ) (s : Serial)
    → Ready s
    → Ensures (debug_char c s) (λ _ t. Wrote (sent (c ∷ []) s.ports) s t)
unfolding debug_char
debug_char-Wrote c s h = elim (Bool-cases (c == 10)) [
  | inl e ↦
      let feed : c ≡ 10 = ground (arith, e) in
      rw e (
        Ensures-bind (λ _ t. Wrote ((0x3F8, c) ∷ s.ports) s t) _ (put_char c s) _
          (put_char-Wrote c s h)
          (λ _ t g.
            Ensures-mono _ _ (put_char 13 t) (put_char-Wrote 13 t (Ready-same _ s t g h)) (λ _ u k.
              (
                k.0 ∙ ap (λ ps. (0x3F8, 13) ∷ ps) (g.0 ∙ ap (λ d. (0x3F8, d) ∷ s.ports) feed),
                k.1 ∙ g.1,
                k.2 ∙ g.2,
              ))))
  | inr ne ↦ rw ne (
      Ensures-bind (λ _ t. Wrote ((0x3F8, c) ∷ s.ports) s t) _ (put_char c s) _
        (put_char-Wrote c s h) (λ _ t g. g))
]

string_loop-Wrote :
    (fuel p : ℕ) (b : Bytes) (cs : List ℕ) (s : Serial)
    → length cs < fuel
    → IsString b p cs
    → Ready s
    → Ensures (string_loop fuel b p s) (λ _ t. Wrote (sent cs s.ports) s t)
unfolding string_loop
string_loop-Wrote zero p b cs s enough str h = absurd (omega arith)
string_loop-Wrote (suc fuel) p b [] s enough str h = rw str (refl, refl, refl)
string_loop-Wrote (suc fuel) p b (c ∷ cs) s enough str h =
    rw (str.0, ==_ne c 0 str.1)
      (Ensures-bind (λ _ t. Wrote (sent (c ∷ []) s.ports) s t) _ (debug_char c s) _
        (debug_char-Wrote c s h)
        (λ _ t g.
          Ensures-mono _ _ (string_loop fuel b (p + 1) t)
            (string_loop-Wrote fuel (p + 1) b cs t (omega arith) str.2 (Ready-same _ s t g h))
            (λ _ u k. (k.0 ∙ ap (sent cs) g.0, k.1 ∙ g.1, k.2 ∙ g.2))))

-- `debug_string` of a string that fits into memory, on a port that is ready at each read, returns, and
-- sends just the string's characters in order, with a carriage return after each line feed.
pub debug_string-sent :
    (p : ℕ) (b : Bytes) (cs : List ℕ) (s : Serial)
    → length cs < 2 ^ 32
    → IsString b p cs
    → Ready s
    → Ensures (debug_string b p s) (λ _ t. t.ports ≡ sent cs s.ports)
unfolding debug_string
debug_string-sent p b cs s small str h =
    Ensures-mono _ _ (string_loop (2 ^ 32) b p s) (string_loop-Wrote (2 ^ 32) p b cs s small str h)
      (λ _ t w. w.0)
