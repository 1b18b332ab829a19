-- ===== src/Experiment/Names/Index.antt =====
-- The index of a process, as user/run_experiment.c writes it and its programs read it.
use mc.Prelude.{ℕ, ◌<◌, ◌≡◌, arith}
use mc.Experiment.Names.{index_str, read_index}

-- What rows.c and graphs.c read from the text that run_experiment.c writes for an index below 20 is that
-- index.
pub read_index-index_str : (index : ℕ) → index < 20 → read_index (index_str index) ≡ index
unfolding read_index index_str
read_index-index_str index h = ground arith
