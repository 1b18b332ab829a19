-- ===== src/Tests.antt =====
-- The theorems at concrete inputs, and runs of the models.
mod Proc
mod Ending
mod Scheduler
mod Experiment
mod Str
mod Pipe
mod Log
mod Kalloc
mod File
mod Bio
mod Graph
mod Vm
mod Grep
mod Fs
mod Spinlock
