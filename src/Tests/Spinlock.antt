-- ===== src/Tests/Spinlock.antt =====
-- A CPU with its interrupts on, and a section in a section.
use mc.Prelude.{◌≡◌, refl, true, false, some, arith}
use mc.Spinlock.{Cpu, has_lock, acquire, initlock}
use mc.Spinlock.Nesting.{Sections, done, section, run, IsBack, run_lem}

abbrev idle : Cpu
idle = record { intr = true; noff = 0; intena = false }

abbrev nested : Sections
nested = section (section done done) done

run_lem_example : (c : Cpu) × (run nested idle ≡ some c) × IsBack idle c
run_lem_example = run_lem nested idle (λ z. z) (omega arith)

takes_a_free_lock :
    acquire 3 idle initlock
    ≡ has_lock
        (record { intr = false; noff = 1; intena = true })
        (record { locked = 1; cpu = some 3 })
unfolding acquire
takes_a_free_lock = refl
