-- ===== src/Tests/Inputs.antt =====
-- Identities, downloads and archives at concrete inputs.
use phcremote_control.Prelude.{
  ℕ, zero, suc, ◌+◌, ◌≤◌, ◌≡◌, ◌≢◌, ◌↔◌, refl, false, inl, none, some, [], ◌∷◌, length, arith,
}
use phcremote_control.Prelude.Int.{pos}
use phcremote_control.Text.{codes}
use phcremote_control.Domain.Ids.{stable_device_id_injective}
use phcremote_control.Domain.FloorIds.{IsText, stable_floor_id_injective}
use phcremote_control.Project.Errors.{ok}
use phcremote_control.Project.Download.{FileChunk, ChunkReader, download}
use phcremote_control.Project.Download.Chunks.{
  Serves, ends, reads, InOrder, Fetched, download_sound, download_complete,
}
use phcremote_control.Project.Archive.{Entry, Files, extract, to_ppfx, to_tpfx, max_zip_entries}
use phcremote_control.Project.Archive.Slots.{IsFile}
use phcremote_control.Project.Archive.Entries.{extract_iff}
use phcremote_control.Tests.Data.{lamp_ref}

stable_device_id_injective_example : lamp_ref ≡ lamp_ref
stable_device_id_injective_example = stable_device_id_injective lamp_ref lamp_ref refl

ground_floor : IsText (codes "EG")
ground_floor = (omega arith, (omega arith, tt))

stable_floor_id_injective_example : codes "EG" ≡ codes "EG"
stable_floor_id_injective_example =
    stable_floor_id_injective (codes "EG") (codes "EG") ground_floor ground_floor refl

abbrev first : FileChunk
first = record { cur = pos 0; total = pos 2; bin = 80 ∷ (75 ∷ []) }

abbrev second : FileChunk
second = record { cur = pos 1; total = pos 2; bin = 3 ∷ [] }

-- It counts the calls.
abbrev two_chunks : ChunkReader ℕ
two_chunks zero w = (inl first, w + 1)
two_chunks (suc i) w = (inl second, w + 1)

two-served : Serves two_chunks 0 0 (first ∷ (second ∷ [])) 2
two-served = reads refl (reads refl ends)

two-ordered : InOrder 0 2 (first ∷ (second ∷ []))
two-ordered = (refl, refl, (λ e. absurd cc), (refl, refl, (λ e. absurd cc), refl))

download_complete_example : download two_chunks 0 ≡ (ok (80 ∷ (75 ∷ (3 ∷ []))), 2)
download_complete_example =
    download_complete two_chunks 2 0 2 (first ∷ (second ∷ [])) two-served two-ordered (omega arith)
      (omega arith) (omega arith)

two-downloaded : download two_chunks 0 ≡ (ok (80 ∷ (75 ∷ (3 ∷ []))), 2)
two-downloaded =
    download_complete two_chunks 2 0 2 (first ∷ (second ∷ [])) two-served two-ordered (omega arith)
      (omega arith) (omega arith)

download_sound_example : Fetched two_chunks 0 none [] 0 (80 ∷ (75 ∷ (3 ∷ []))) 2
download_sound_example = download_sound two_chunks 0 2 (80 ∷ (75 ∷ (3 ∷ []))) two-downloaded

abbrev entry : Entry
entry = record {
  name = codes "project.ppfx";
  declared = 1;
  stream = some (record { bytes = 60 ∷ []; fails = false });
}

abbrev files : Files
files = record { ppfx = some (60 ∷ []); tpfx = none }

extract_iff_example : (extract (some (entry ∷ [])) ≡ ok files) ↔ (
    (length (entry ∷ []) ≤ max_zip_entries)
    × (files.ppfx ≢ none)
    × IsFile to_ppfx (entry ∷ []) files.ppfx
    × IsFile to_tpfx (entry ∷ []) files.tpfx)
extract_iff_example = extract_iff (entry ∷ []) files
