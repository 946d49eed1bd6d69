-- ===== src/Project/Archive.antt =====
-- Extract and readEntry of bridge/internal/project/download.go.
pub mod Slots
pub mod Entries
use phcremote_control.Prelude.{
  ℕ, suc, ◌*◌, ◌^◌, Bool, true, false, Option, none, some, List, [], ◌∷◌, length, ltb,
  if◌then◌else◌, take,
}
use phcremote_control.Text.{Text, codes, ◌==ₜ◌}
use phcremote_control.Project.Errors.{
  Result, ok, err, ◌>>=◌, not_a_zip, too_many_entries, duplicate_entry, no_ppfx, declared_too_large,
  open_failed, entry_failed, entry_too_large,
}

-- What reading a stream to its end gives: its bytes, and whether it then fails.
pub record Stream : Type 0 where
  pub bytes : List ℕ
  pub fails : Bool

-- What the code uses of a zip entry: its name, the size that the directory declares, and the stream
-- that it opens to, `none` when it cannot be opened.
pub record Entry : Type 0 where
  pub name : Text
  pub declared : ℕ
  pub stream : Option Stream

-- The two files; `none` is a nil slice, which no entry that is read gives.
pub record Files : Type 0 where
  pub ppfx : Option (List ℕ)
  pub tpfx : Option (List ℕ)

abbrev pub max_zip_entries : ℕ
max_zip_entries = 128

-- 8 MiB
abbrev pub max_entry_bytes : ℕ
max_entry_bytes = 8 * 2 ^ 20

-- io.ReadAll(io.LimitReader(rc, limit))
unfoldable pub read_limited : ℕ → Stream → Result (List ℕ)
read_limited limit s =
    if ltb (length s.bytes) limit
    then (if s.fails then err entry_failed else ok s.bytes)
    else ok (take limit s.bytes)

unfoldable check_length : List ℕ → Result (List ℕ)
check_length bytes = if ltb max_entry_bytes (length bytes) then err entry_too_large else ok bytes

unfoldable pub read_entry : Entry → Result (List ℕ)
unfolding check_length
read_entry e = if ltb max_entry_bytes e.declared then err declared_too_large else elim e.stream [
  | none ↦ err open_failed
  | some s ↦ read_limited (suc max_entry_bytes) s >>= check_length
]

-- The file that an entry goes to: the `dst` of the loop.
pub data Slot : Type 0 where
  to_ppfx to_tpfx : Slot

unfoldable pub slot_of : Text → Option Slot
slot_of name =
    if name ==ₜ codes "project.ppfx"
    then some to_ppfx
    else if name ==ₜ codes "project.tpfx"
    then some to_tpfx
    else none

abbrev pub is_slot : Slot → Slot → Bool
is_slot to_ppfx to_ppfx = true
is_slot to_ppfx to_tpfx = false
is_slot to_tpfx to_ppfx = false
is_slot to_tpfx to_tpfx = true

-- seen[e.Name]; the two names stand for their slots.
abbrev pub is_seen : Slot → List Slot → Bool
is_seen s [] = false
is_seen s (t ∷ ts) = if is_slot s t then true else is_seen s ts

abbrev pub put : Slot → List ℕ → Files → Files
put to_ppfx bytes f = record { ppfx = some bytes; tpfx = f.tpfx }
put to_tpfx bytes f = record { ppfx = f.ppfx; tpfx = some bytes }

-- The loop over the entries.
unfoldable pub collect : List Entry → List Slot → Files → Result Files
collect [] seen f = ok f
collect (e ∷ es) seen f = elim (slot_of e.name) [
  | none ↦ collect es seen f
  | some s ↦
      if is_seen s seen
      then err duplicate_entry
      else (read_entry e >>= (λ bytes. collect es (s ∷ seen) (put s bytes f)))
]

abbrev pub require_ppfx : Files → Result Files
require_ppfx f = elim f.ppfx [ none ↦ err no_ppfx | some bytes ↦ ok f ]

-- The entries are what the zip reader finds, `none` when the bytes are no zip archive.
unfoldable pub extract : Option (List Entry) → Result Files
extract none = err not_a_zip
extract (some es) =
    if ltb max_zip_entries (length es)
    then err too_many_entries
    else (collect es [] (record { ppfx = none; tpfx = none }) >>= require_ppfx)
