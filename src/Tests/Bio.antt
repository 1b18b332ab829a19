-- ===== src/Tests/Bio.antt =====
-- The cache with its buffers unused, and a buffer that is released.
use mc.Prelude.{ℕ, ◌≡◌, refl, List, [], ◌∷◌, none, some}
use mc.Bio.{Buf, bget, look_up, recycle, brelse, take_out, holdingsleep, releasesleep, change}
use mc.Bio.Cache.{Outcome, bget_lem}

abbrev buffer : (place blockno refcnt : ℕ) → Buf ℕ
buffer place blockno refcnt = record {
  place = place;
  valid = 1;
  dev = 1;
  blockno = blockno;
  lock = record { locked = 1; pid = 5 };
  refcnt = refcnt;
  content = 0;
}

abbrev cached : List (Buf ℕ)
cached = buffer 0 70 1 ∷ buffer 1 71 0 ∷ buffer 2 72 0 ∷ buffer 3 73 1 ∷ []

bget_lem_example : Outcome 1 80 cached (bget 1 80 cached)
bget_lem_example = bget_lem 1 80 cached

-- the last buffer of which nobody has a reference
recycles_least_recent :
    bget 1 80 cached
    ≡ some (
      2,
      buffer 0 70 1 ∷ buffer 1 71 0 ∷ record (buffer 2 80 1) { valid = 0 } ∷ buffer 3 73 1 ∷ [],
    )
unfolding bget look_up recycle
recycles_least_recent = refl

released_goes_first :
    brelse 5 3 cached
    ≡ some (
        record (buffer 3 73 0) { lock = record { locked = 0; pid = 0 } }
        ∷ buffer 0 70 1
        ∷ buffer 1 71 0
        ∷ buffer 2 72 0
        ∷ [])
unfolding brelse take_out change holdingsleep releasesleep
released_goes_first = refl

only_the_holder_releases : brelse 6 3 cached ≡ none
unfolding brelse take_out change holdingsleep releasesleep
only_the_holder_releases = refl
