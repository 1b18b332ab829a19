-- ===== src/Spinlock/Nesting.antt =====
-- push_off and pop_off in pairs.
use mc.Prelude.{
  is_neg, ◌||◌, ℕ, ◌+◌, ◌-◌, ◌^◌, ◌<◌, ◌≡◌, refl, sym, ap, ◌∙◌, true, false, ◌&&◌, Option, none,
  some, if◌then◌else◌, ◌==◌, ltb, inl, inr, Bool-cases, arith, add32,
}
use mc.Spinlock.{Cpu, push_off, pop_off}

-- Nested sections: nothing, or a section in a pair of calls and then more.
pub data Sections : Type 0 where
  done : Sections
  section : Sections → Sections → Sections

abbrev pub run : Sections → Cpu → Option Cpu
run done c = some c
run (section inside later) c = elim (run inside (push_off c)) [
  | none ↦ none
  | some c1 ↦ elim (pop_off c1) [ none ↦ none | some c2 ↦ run later c2 ]
]

-- how deep the sections are in each other
abbrev pub depth : Sections → ℕ
depth done = 0
depth (section inside later) =
    if ltb (depth inside + 1) (depth later) then depth later else depth inside + 1

-- Interrupts are off within a section.
abbrev pub IsOff : Cpu → Type 0
IsOff c = (c.noff == 0) ≡ false → c.intr ≡ false

-- What a pair of calls with a section in it leaves.
pub record IsBack (c c' : Cpu) : Type 0 where
  pub intr : c'.intr ≡ c.intr
  pub noff : c'.noff ≡ c.noff
  pub intena : (c.noff == 0) ≡ false → c'.intena ≡ c.intena

pop_off-IsBack :
    (c c2 : Cpu)
    → IsOff c
    → c.noff + 1 < 2 ^ 31
    → IsBack (push_off c) c2
    → (c3 : Cpu) × (pop_off c2 ≡ some c3) × IsBack c c3
unfolding push_off pop_off
pop_off-IsBack c c2 h l b =
    let n : c2.noff ≡ c.noff + 1 = b.noff ∙ ground (arith, l) in
    let off : c2.intr ≡ false = b.intr in
    let some_left : (is_neg c2.noff || ltb c2.noff 1) ≡ false = ground (arith, n, l) in
    let up : (add32 c.noff 1 == 0) ≡ false = ground (arith, l) in
    let kept : c2.intena ≡ (if c.noff == 0 then c.intr else c.intena) = b.intena up in
    (
      record c2 { noff = c2.noff - 1; intr = c2.noff == 1 && c2.intena },
      rw (off, some_left),
      record { intr = intr_back n kept; noff = omega arith; intena = λ z. kept ∙ rw (z) },
    )
  where
    intr_back :
        c2.noff ≡ c.noff + 1
        → c2.intena ≡ (if c.noff == 0 then c.intr else c.intena)
        → (c2.noff == 1 && c2.intena) ≡ c.intr
    intr_back n kept = elim (Bool-cases (c.noff == 0)) [
      | inl y ↦ let one : (c2.noff == 1) ≡ true = ground (arith, n, y) in rw (one, kept, y)
      | inr y ↦ let more : (c2.noff == 1) ≡ false = ground (arith, n, y) in rw (more, h y)
    ]

IsBack-trans : {a b c : Cpu} → IsBack a b → IsBack b c → IsBack a c
IsBack-trans p q = record {
  intr = q.intr ∙ p.intr;
  noff = q.noff ∙ p.noff;
  intena = λ z. q.intena (ap (λ n. n == 0) p.noff ∙ z) ∙ p.intena z;
}

back-IsOff : {a b : Cpu} → IsOff a → IsBack a b → IsOff b
back-IsOff h p = λ z. p.intr ∙ h (ap (λ n. n == 0) (sym p.noff) ∙ z)

-- Sections that are nested in pairs never panic, and leave the interrupts and the count as they were, where
-- the count has room for their depth.
pub run_lem :
    (s : Sections) (c : Cpu)
    → IsOff c
    → c.noff + depth s < 2 ^ 31
    → (c' : Cpu) × (run s c ≡ some c') × IsBack c c'
unfolding push_off
run_lem done c h l = (c, refl, record { intr = refl; noff = refl; intena = λ z. refl })
run_lem (section inside later) c h l =
    let up : (push_off c).noff ≡ c.noff + 1 = ground (arith, l) in
    let (c2, e2, b2) = run_lem inside (push_off c) (λ z. refl) (ground (arith, l)) in
    let (c3, e3, b3) = pop_off-IsBack c c2 h (ground (arith, l)) b2 in
    let back : c3.noff ≡ c.noff = b3.noff in
    let (c4, e4, b4) = run_lem later c3 (back-IsOff h b3) (ground (arith, l, back)) in
    (c4, rw (e2, e3) e4, IsBack-trans b3 b4)
