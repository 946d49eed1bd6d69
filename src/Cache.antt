-- ===== src/Cache.antt =====
-- bridge/internal/cache/cache.go: the project cache, over a disk of named files.
pub mod Atomic
use phcremote_control.Prelude.{
  ℕ, Bool, not, ◌&&◌, Option, none, some, List, [], ◌∷◌, ◌==◌, if◌then◌else◌,
}
use phcremote_control.Prelude.Dict.{Dict, lookup, insert, delete}
use phcremote_control.Text.{Text, codes, ◌==ₜ◌, text_key}
use phcremote_control.Prelude.Int.{pos}
use phcremote_control.Domain.{Floor, Project}

abbrev pub schema_version : ℕ
schema_version = 1

-- cacheFile
pub record CacheFile : Type 0 where
  pub version : ℕ
  pub stm_key : Text
  pub project : Project

-- What a project keeps in JSON: the sort index of a floor is tagged `json:"-"`, so that it is not
-- written and is zero when the floor is read.
unfoldable pub stored_floors : List Floor → List Floor
stored_floors [] = []
stored_floors (f ∷ fs) = record f { sort_index = pos 0 } ∷ stored_floors fs

abbrev pub stored : Project → Project
stored p = record p { floors = stored_floors p.floors }

-- What the package uses of Go's library: encoding/json on a cacheFile (`none` is an error), the
-- SHA-256 sum in hexadecimal, and filepath.Join.
pub record Codec : Type 0 where
  pub marshal : CacheFile → Option (List ℕ)
  pub unmarshal : List ℕ → Option CacheFile
  pub hash : Text → Text
  pub file_in : Text → Text → Text

pub data CacheError : Type 0 where
  reading marshalling creating changing_mode writing syncing closing renaming : CacheError

pub data Result {ℓ} (A : Type ℓ) : Type ℓ where
  ok : A → Result A
  err : CacheError → Result A

-- A file, or one that is there but cannot be read.
pub data File : Type 0 where
  readable : List ℕ → File
  unreadable : File

abbrev pub Disk : Type 0
Disk = Dict Text File

pub record Store : Type 0 where
  pub path : Text
  pub stm_key : Text

-- How the calls of one Save go: the name that CreateTemp chose, whether Chmod, Write, Sync, Close
-- and Rename succeed, what a failing Write has written, and whether the deferred Remove succeeds.
pub record Run : Type 0 where
  pub temp : Option Text
  pub chmod : Bool
  pub write : Bool
  pub partial : List ℕ
  pub sync : Bool
  pub close : Bool
  pub rename : Bool
  pub remove : Bool

accepted : Store → Option CacheFile → Option Project
accepted s none = none
accepted s (some f) =
    if f.version == schema_version && f.stm_key ==ₜ s.stm_key then some f.project else none

-- The deferred Remove.
clean : Run → Text → Disk → Disk
clean run name disk = if run.remove then delete name disk else disk

-- Rename puts the temporary file in the place of the other.
unfoldable pub save_bytes : Store → Run → Text → List ℕ → Disk → Result (Unit {0}) × Disk
unfolding clean
save_bytes s run name bytes disk =
    if not run.chmod
    then (err changing_mode, clean run name (insert name (readable []) disk))
    else if not run.write
    then (err writing, clean run name (insert name (readable run.partial) disk))
    else if not run.sync
    then (err syncing, clean run name (insert name (readable bytes) disk))
    else if not run.close
    then (err closing, clean run name (insert name (readable bytes) disk))
    else if run.rename
    then (ok tt, insert s.path (readable bytes) (delete name disk))
    else (err renaming, clean run name (insert name (readable bytes) disk))

save_marshalled : Store → Run → Option (List ℕ) → Disk → Result (Unit {0}) × Disk
save_marshalled s run none disk = (err marshalling, disk)
save_marshalled s run (some bytes) disk = elim run.temp [
  | none ↦ (err creating, disk)
  | some name ↦ save_bytes s run name bytes disk
]

abbrev pub file_of : Store → Project → CacheFile
file_of s p = record { version = schema_version; stm_key = s.stm_key; project = p }

module _ (codec : Codec) where
  -- New; a nil store is `none`.
  unfoldable pub new_store : Text → Text → Option Store
  new_store state_dir address =
      if state_dir ==ₜ []
      then none
      else some (record {
        path = codec.file_in state_dir (codes "project.json");
        stm_key = codec.hash address;
      })

  load_file : Store → Option File → Result (Option Project)
  load_file s none = ok none
  load_file s (some unreadable) = err reading
  load_file s (some (readable bytes)) = ok (accepted s (codec.unmarshal bytes))

  -- `none` where Load returns false.
  unfoldable pub load : Option Store → Disk → Result (Option Project)
  unfolding load_file accepted
  load none disk = ok none
  load (some s) disk = load_file s (lookup s.path disk)

  unfoldable pub save : Option Store → Run → Project → Disk → Result (Unit {0}) × Disk
  unfolding save_marshalled save_bytes
  save none run p disk = (ok tt, disk)
  save (some s) run p disk = save_marshalled s run (codec.marshal (file_of s p)) disk
