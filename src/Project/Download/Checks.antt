-- ===== src/Project/Download/Checks.antt =====
-- Download of bridge/internal/project/download.go and the checks of one chunk.
use phcremote_control.Prelude.{
  ℕ, suc, ◌+◌, ◌≤◌, ◌<◌, ◌≡◌, ◌≢◌, true, Option, none, some, List, [], length, arith, leb,
}
use phcremote_control.Prelude.Int.{ℤ, pos, pos_part}
use phcremote_control.Project.Download.{FileChunk, max_chunks, max_zip_bytes, check_chunk, is_last}

abbrev pub Expects : ℕ → Option ℤ → Type 0
Expects total none = Unit
Expects total (some t) = t ≡ pos total

-- A chunk passes exactly if it is the next one and there is room for it.
pub check_passes :
    (i total : ℕ) (expected : Option ℤ) (buf : List ℕ) (c : FileChunk)
    → 0 < total
    → total ≤ max_chunks
    → i < total
    → Expects total expected
    → c.cur ≡ pos i
    → c.total ≡ pos total
    → c.bin ≢ []
    → length buf + length c.bin ≤ max_zip_bytes
    → check_chunk i expected buf c ≡ none
unfolding check_chunk
check_passes i total none buf c p q r e k l m n = ground arith
check_passes i total (some t) buf c p q r e k l m n = ground arith

pub last_of :
    (i total : ℕ) (c : FileChunk)
    → 0 < total
    → c.cur ≡ pos i
    → c.total ≡ pos total
    → i < total
    → is_last c ≡ leb total (suc i)
unfolding is_last
last_of i total c p k l r = ground arith

pub ending_index :
    (i total : ℕ) (c : FileChunk)
    → 0 < total
    → c.cur ≡ pos i
    → c.total ≡ pos total
    → i < total
    → is_last c ≡ true
    → suc i ≡ total
unfolding is_last
ending_index i total c p k l r e = ground arith

-- What a chunk that passes is.
pub record Passes (i : ℕ) (expected : Option ℤ) (buf : List ℕ) (c : FileChunk) : Type 0 where
  pub cur : c.cur ≡ pos i
  pub total : c.total ≡ pos (pos_part c.total)
  pub plausible : (0 < pos_part c.total) × (pos_part c.total ≤ max_chunks)
  pub inside : i < pos_part c.total
  pub nonempty : c.bin ≢ []
  pub fits : length buf + length c.bin ≤ max_zip_bytes
  pub same : Expects (pos_part c.total) expected

pub check_sound :
    (i : ℕ) (expected : Option ℤ) (buf : List ℕ) (c : FileChunk)
    → check_chunk i expected buf c ≡ none
    → Passes i expected buf c
unfolding check_chunk
check_sound i none buf c e = ground arith
check_sound i (some t) buf c e = ground arith
