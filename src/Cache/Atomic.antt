-- ===== src/Cache/Atomic.antt =====
-- Save and Load of bridge/internal/cache/cache.go, one after the other.
use phcremote_control.Prelude.{
  ℕ, ◌≡◌, ◌≢◌, ◌⊎◌, refl, ap, Option, none, some, Option-cases, inl, inr, List, [], arith,
}
use phcremote_control.Prelude.Dict.{
  lookup, insert, delete, lookup-insert, lookup-delete, lookup-insert_self,
}
use phcremote_control.Text.{Text, ==ₜ_iff, ==ₜ_refl, text_key}
use phcremote_control.Domain.{Project}
use phcremote_control.Cache.{
  Codec, stored, Result, ok, File, readable, Disk, Store, Run, load, load_file, save, save_bytes,
  save_marshalled, clean, file_of,
}

-- What CreateTemp promises: the new file is none that the store reads.
abbrev pub IsElsewhere : Run → Store → Type 0
IsElsewhere run s = (name : Text) → run.temp ≡ some name → name ≢ s.path

-- Another file than the temporary one is as before.
clean-lookup :
    (run : Run) (name path : Text) (f : File) (disk : Disk)
    → name ≢ path
    → lookup path (clean run name (insert name f disk)) ≡ lookup path disk
unfolding clean
clean-lookup run name path f disk other = ground (
  arith,
  other,
  ==ₜ_iff name path,
  lookup-delete name path (insert name f disk),
  lookup-insert name path f disk,
)

-- The file at the store's path is the old one after an error, and holds the whole data otherwise.
abbrev Atomic : Store → List ℕ → Disk → Result (Unit {0}) × Disk → Type 0
Atomic s bytes disk (r, after) =
    ((r ≡ ok tt) × (lookup s.path after ≡ some (readable bytes)))
    ⊎ ((r ≢ ok tt) × (lookup s.path after ≡ lookup s.path disk))

save_bytes-Atomic :
    (s : Store) (run : Run) (name : Text) (bytes : List ℕ) (disk : Disk)
    → name ≢ s.path
    → Atomic s bytes disk (save_bytes s run name bytes disk)
unfolding save_bytes
save_bytes-Atomic s run name bytes disk other = ground (
  arith,
  clean-lookup run name s.path (readable []) disk other,
  clean-lookup run name s.path (readable run.partial) disk other,
  clean-lookup run name s.path (readable bytes) disk other,
  lookup-insert_self s.path (readable bytes) (delete name disk),
)

module _ (codec : Codec) where
  -- What Load gives depends on the file at the store's path only.
  load-same :
      (s : Store) (disk after : Disk)
      → lookup s.path after ≡ lookup s.path disk
      → load codec (some s) after ≡ load codec (some s) disk
  unfolding load
  load-same s disk after e = ap (load_file codec s) e

  load-bytes :
      (s : Store) (p : Project) (bytes : List ℕ) (disk : Disk)
      → codec.unmarshal bytes ≡ some (file_of s p)
      → lookup s.path disk ≡ some (readable bytes)
      → load codec (some s) disk ≡ ok (some p)
  unfolding load
  load-bytes s p bytes disk e there = ground (arith, e, there, ==ₜ_refl s.stm_key)

  -- The next Load finds what JSON keeps of the project, or finds what it would have found before.
  abbrev pub IsSaved : Store → Project → Disk → Result (Unit {0}) × Disk → Type 0
  IsSaved s p disk (r, after) =
      ((r ≡ ok tt) × (load codec (some s) after ≡ ok (some (stored p))))
      ⊎ ((r ≢ ok tt) × (load codec (some s) after ≡ load codec (some s) disk))

  Atomic-IsSaved :
      (s : Store) (p : Project) (bytes : List ℕ) (disk : Disk) (out : Result (Unit {0}) × Disk)
      → codec.unmarshal bytes ≡ some (file_of s (stored p))
      → Atomic s bytes disk out
      → IsSaved s p disk out
  Atomic-IsSaved s p bytes disk (r, after) e (inl (fine, there)) =
      inl (fine, load-bytes s (stored p) bytes after e there)
  Atomic-IsSaved s p bytes disk (r, after) e (inr (failed, same)) =
      inr (failed, load-same s disk after same)

  marshalled-IsSaved :
      (s : Store) (run : Run) (p : Project) (disk : Disk) (data' : Option (List ℕ))
      → IsElsewhere run s
      → ((bytes : List ℕ)
          → data' ≡ some bytes
          → codec.unmarshal bytes ≡ some (file_of s (stored p)))
      → IsSaved s p disk (save_marshalled s run data' disk)
  unfolding save_marshalled save_bytes
  marshalled-IsSaved s run p disk none elsewhere again = inr (cc, refl)
  marshalled-IsSaved s run p disk (some bytes) elsewhere again = elim (Option-cases run.temp) [
    | inl failed ↦ rw failed (inr (cc, refl))
    | inr (name, made) ↦
        let out = save_bytes s run name bytes disk in
        let saved =
          Atomic-IsSaved s p bytes disk out (again bytes refl)
            (save_bytes-Atomic s run name bytes disk (elsewhere name made)) in
        rw made saved
  ]

  -- After a Save that succeeds, Load gives the project with the sort index of each floor at zero; after
  -- one that fails, whichever of its calls failed, Load gives what it gave before. What CreateTemp
  -- makes is another file than the cache, and data that was marshalled is unmarshalled again, but for
  -- the sort indices, which JSON leaves out.
  pub load-save :
      (s : Store) (run : Run) (p : Project) (disk : Disk)
      → IsElsewhere run s
      → ((bytes : List ℕ)
          → codec.marshal (file_of s p) ≡ some bytes
          → codec.unmarshal bytes ≡ some (file_of s (stored p)))
      → IsSaved s p disk (save codec (some s) run p disk)
  unfolding save
  load-save s run p disk elsewhere again =
      marshalled-IsSaved s run p disk (codec.marshal (file_of s p)) elsewhere again
