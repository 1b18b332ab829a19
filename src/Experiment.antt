-- ===== src/Experiment.antt =====
-- The programs of the experiment: user/run_experiment.c starts rounds of 20 processes and computes
-- their metrics, user/graphs.c is the CPU-bound process and user/rows.c the IO-bound one.
pub mod Rand
pub mod Terminos
pub mod Scores
pub mod Names
pub mod Graph
