-- ===== src/Project/Download.antt =====
-- Download of bridge/internal/project/download.go.
pub mod Checks
pub mod Chunks
use phcremote_control.Prelude.{
  ℕ, zero, suc, ◌+◌, ◌*◌, ◌^◌, Bool, true, false, not, ◌||◌, Option, none, some, ◌⊎◌, inl, inr,
  List, [], ◌∷◌, ◌++◌, length, ltb, if◌then◌else◌,
}
use phcremote_control.Prelude.Int.{ℤ, pos, ltb_ℤ, eq_ℤ, ◌-ℤ◌}
use phcremote_control.Project.Errors.{
  ReadError, ProjectError, Result, ok, err, too_many_chunks, read_failed, implausible_total,
  total_changed, wrong_order, outside_total, empty_chunk, archive_too_large, empty_archive,
}

-- What Download uses of a chunk.
pub record FileChunk : Type 0 where
  pub cur : ℤ
  pub total : ℤ
  pub bin : List ℕ

abbrev pub max_chunks : ℕ
max_chunks = 4096

-- 16 MiB
abbrev pub max_zip_bytes : ℕ
max_zip_bytes = 16 * 2 ^ 20

-- The call readFile(0, i, 1) over the state of the STM, with its error.
abbrev pub ChunkReader : Type 0 → Type 0
ChunkReader W = ℕ → W → (FileChunk ⊎ ReadError) × W

changes_total : Option ℤ → ℤ → Bool
changes_total none total = false
changes_total (some expected) total = not (eq_ℤ total expected)

is_void : List ℕ → Bool
is_void [] = true
is_void (b ∷ bs) = false

-- The checks of a chunk, in the order of the code.
unfoldable pub check_chunk : ℕ → Option ℤ → List ℕ → FileChunk → Option ProjectError
unfolding changes_total is_void
check_chunk i expected buf c =
    if ltb_ℤ c.total (pos 1) || ltb_ℤ (pos max_chunks) c.total
    then some (implausible_total)
    else if changes_total expected c.total
    then some (total_changed)
    else if not (eq_ℤ c.cur (pos i))
    then some (wrong_order)
    else if ltb_ℤ c.cur (pos 0) || not (ltb_ℤ c.cur c.total)
    then some (outside_total)
    else if is_void c.bin
    then some (empty_chunk)
    else if ltb max_zip_bytes (length buf + length c.bin)
    then some (archive_too_large)
    else none

-- chunk.Cur >= chunk.Total-1
unfoldable pub is_last : FileChunk → Bool
unfolding ◌-ℤ◌
is_last c = not (ltb_ℤ c.cur (c.total -ℤ pos 1))

unfoldable pub not_empty {ℓ} : {W : Type ℓ} → Result (List ℕ) × W → Result (List ℕ) × W
not_empty (ok [], w) = (err empty_archive, w)
not_empty (ok (b ∷ bs), w) = (ok (b ∷ bs), w)
not_empty (err e, w) = (err e, w)

module _ {W : Type 0} (read : ChunkReader W) where
  -- The loop, with the rounds that are left before `max_chunks`.
  unfoldable pub download_loop : ℕ → ℕ → Option ℤ → List ℕ → W → Result (List ℕ) × W
  download_loop zero i expected buf w = (err too_many_chunks, w)
  download_loop (suc left) i expected buf w =
      let (answer, w') = read i w in
      elim answer [
        | inr e ↦ (err (read_failed i e), w')
        | inl c ↦ elim (check_chunk i expected buf c) [
          | some e ↦ (err e, w')
          | none ↦
              let more = download_loop left (suc i) (some c.total) (buf ++ c.bin) w' in
              if is_last c then (ok (buf ++ c.bin), w') else more
        ]
      ]

  unfoldable pub download : W → Result (List ℕ) × W
  download w = not_empty (download_loop max_chunks 0 none [] w)
