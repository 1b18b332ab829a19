-- ===== src/Proc/Scheduler/Slices.antt =====
-- The dispatch loop of the scheduler: how long it keeps a process, and what time it charges.
use mc.Prelude.{
  ℕ, ◌+◌, ◌%◌, ◌^◌, ◌<◌, ◌≡◌, refl, ap, ◌∙◌, ◌≢◌, inl, inr, List, [], ◌∷◌, some, arith, false,
  Bool-cases, length, length-set, get_or-set_self, All, add32,
}
use mc.Proc.State.{ProcState, runnable, running, Proc, is_state, zero_proc}
use mc.Proc.Scheduler.{Slice, at, start_running, elapsed, dispatch, run_loop, round, pick_proc}

-- Dispatches after which slot `i` is RUNNABLE again, as after a timer interrupt.
abbrev pub KeepsReady : ℕ → Slice → Type 0
KeepsReady i s =
    (ps : List Proc)
    → i < length ps
    → ((at (s.runs ps) i).state ≡ runnable) × (length (s.runs ps) ≡ length ps)

dispatch-ready :
    (i : ℕ) (s : Slice) (ps : List Proc)
    → KeepsReady i s
    → i < length ps
    → ((at (dispatch s i ps) i).state ≡ runnable) × (length (dispatch s i ps) ≡ length ps)
unfolding dispatch
dispatch-ready i s ps keeps l =
    let ps1 : List Proc = start_running i ps in
    let (ready, size) =
      keeps ps1 (omega (arith, length-set ps i (record (at ps i) { state = running }))) in
    let within : i < length (s.runs ps1) =
      omega (arith, length-set ps i (record (at ps i) { state = running })) in
    (
      rw (get_or-set_self (s.runs ps1) i _ zero_proc within) ready,
      length-set (s.runs ps1) i _ ∙ size ∙ length-set ps i _,
    )

-- All the dispatches, one after another, of slot `i`.
abbrev pub dispatch_all : ℕ → List Slice → List Proc → List Proc
dispatch_all i [] ps = ps
dispatch_all i (s ∷ ss) ps = dispatch_all i ss (dispatch s i ps)

-- A process that is RUNNABLE after each of its dispatches is dispatched every time: the scheduler does
-- not scan the table again in between, whatever the other slots hold by then.
pub run_loop-KeepsReady :
    (i : ℕ) (ss : List Slice) (ps : List Proc)
    → i < length ps
    → (at ps i).state ≡ runnable
    → All (KeepsReady i) ss
    → run_loop ss i ps ≡ (dispatch_all i ss ps, [])
unfolding run_loop
run_loop-KeepsReady i [] ps l r keeps = refl
run_loop-KeepsReady i (s ∷ ss) ps l r keeps =
    let (ready, size) = dispatch-ready i s ps keeps.0 l in
    rw (r, run_loop) (run_loop-KeepsReady i ss (dispatch s i ps) (omega arith) ready keeps.1)

-- The loop ends only when its process is no longer RUNNABLE: if dispatches are left over, that is why.
pub run_loop-stops :
    (i : ℕ) (ss : List Slice) (ps : List Proc) (s : Slice) (rest : List Slice)
    → (run_loop ss i ps).1 ≡ s ∷ rest
    → (at (run_loop ss i ps).0 i).state ≢ runnable
unfolding run_loop
run_loop-stops i [] ps s rest e = absurd (cc)
run_loop-stops i (t ∷ ss) ps s rest e = elim (Bool-cases (is_state (at ps i).state runnable)) [
  | inl r ↦ rw (r, run_loop) (run_loop-stops i ss (dispatch t i ps) s rest (rw (r, run_loop) at e))
  | inr r ↦ rw (r, run_loop) (λ same. absurd (true≢false_state r same))
]
  where
    true≢false_state : {st : ProcState} → is_state st runnable ≡ false → st ≡ runnable → ⊥
    true≢false_state h q = ground arith

-- A round that picks a process which every time comes back RUNNABLE gives it all the dispatches: no
-- other slot is dispatched, and an IO-bound process that wakes up meanwhile waits.
pub round-KeepsReady :
    (i : ℕ) (ss : List Slice) (ps : List Proc)
    → i < length ps
    → pick_proc ps ≡ some i
    → (at ps i).state ≡ runnable
    → All (KeepsReady i) ss
    → round ss ps ≡ (dispatch_all i ss ps, [])
unfolding round
round-KeepsReady i ss ps l e r keeps = rw (e, round) (run_loop-KeepsReady i ss ps l r keeps)

-- Between the two switches nothing else writes the process's time.
abbrev pub KeepsTime : ℕ → Slice → Type 0
KeepsTime i s =
    (ps : List Proc)
    → i < length ps
    → ((at (s.runs ps) i).tempo_total ≡ (at ps i).tempo_total) × (length (s.runs ps) ≡ length ps)

-- the ticks of a list of dispatches
abbrev pub total_elapsed : List Slice → ℕ
total_elapsed [] = 0
total_elapsed (s ∷ ss) = elapsed s + total_elapsed ss

dispatch-time :
    (i : ℕ) (s : Slice) (ps : List Proc)
    → KeepsTime i s
    → i < length ps
    → ((at (dispatch s i ps) i).tempo_total ≡ add32 (at ps i).tempo_total (elapsed s))
      × (length (dispatch s i ps) ≡ length ps)
unfolding dispatch
dispatch-time i s ps keeps l =
    let ps1 : List Proc = start_running i ps in
    let n = length-set ps i (record (at ps i) { state = running }) in
    let (same, size) = keeps ps1 (omega (arith, n)) in
    let within : i < length (s.runs ps1) = omega (arith, n) in
    let kept : (at ps1 i).tempo_total ≡ (at ps i).tempo_total =
      ap (λ (p : Proc). p.tempo_total) (get_or-set_self ps i _ zero_proc l) in
    (
      rw (get_or-set_self (s.runs ps1) i _ zero_proc within)
          (ap (λ t. add32 t (elapsed s)) (same ∙ kept)),
      length-set (s.runs ps1) i _ ∙ size ∙ length-set ps i _,
    )

-- The time charged to the process is the time of the dispatches that it got: with that of the
-- dispatches left over it makes up the whole, modulo 2 ^ 32.
pub run_loop-tempo_total :
    (i : ℕ) (ss : List Slice) (ps : List Proc)
    → i < length ps
    → All (KeepsTime i) ss
    → ((at (run_loop ss i ps).0 i).tempo_total + total_elapsed (run_loop ss i ps).1) % 2 ^ 32
      ≡ ((at ps i).tempo_total + total_elapsed ss) % 2 ^ 32
unfolding run_loop
run_loop-tempo_total i [] ps l keeps = refl
run_loop-tempo_total i (s ∷ ss) ps l keeps = elim (Bool-cases (is_state (at ps i).state runnable)) [
  | inl r ↦
      let (time, size) = dispatch-time i s ps keeps.0 l in
      rw (r, run_loop)
        (omega (arith, run_loop-tempo_total i ss (dispatch s i ps) (omega arith) keeps.1))
  | inr r ↦ rw (r, run_loop)
]
