-- ===== src/Bridge/Reloads.antt =====
-- The reload function of bridge/cmd/phc-bridge/main.go, and the start after it.
use phcremote_control.Prelude.{
  ℕ, ◌≡◌, false, ◌≢◌, ◌⊎◌, inl, inr, refl, sym, ap, ◌∙◌, subst, some, List, arith,
}
use phcremote_control.Text.{Unicode}
use phcremote_control.Domain.{Project}
use phcremote_control.Controller.Types.{Config}
use phcremote_control.Controller.Build.{Controller, new}
use phcremote_control.Controller.Run.{Turn, runs, scheduled}
use phcremote_control.Controller.Access.{run_background}
use phcremote_control.Project.Errors as Project
use phcremote_control.Cache as Cache
use phcremote_control.Cache.{Codec, stored, Disk, Store, Run, file_of, load, save}
use phcremote_control.Cache.Atomic.{IsElsewhere, IsSaved, load-save}
use phcremote_control.Stm.Client.{Exchange, Client}
use phcremote_control.Stm.Client.Chunks.{file_reader}
use phcremote_control.Bridge.Seeds.{of_project, new-stored}
use phcremote_control.Bridge.{
  Libraries, seed_of, start, Loaded, of_controller, fetch_project, keep_project, scheduled_reader,
  reload_project,
}

-- What JSON is relied on for: data that was marshalled is read again, without the sort indices.
abbrev pub ReadsBack : Codec → Store → Project → Type 0
ReadsBack codec s p =
    (bytes : List ℕ)
    → codec.marshal (file_of s p) ≡ some bytes
    → codec.unmarshal bytes ≡ some (file_of s (stored p))

-- After the reload of a project, the answer is that of New; if the project was saved, the next start
-- builds the same controller, of the project that JSON keeps, or fails alike, and else it starts as
-- before.
abbrev pub Starts :
    Codec → Config → Store → Project → Disk → Cache.Result (Unit {0}) → Loaded × Disk → Type 0
Starts codec config s p disk saved (answer, after) =
    (answer ≡ of_controller (new p config))
    × (((saved ≡ Cache.ok tt)
          × (start codec config (some s) after ≡ of_project (stored p) (new p config)))
        ⊎ ((saved ≢ Cache.ok tt)
            × (start codec config (some s) after ≡ start codec config (some s) disk)))

Starts-IsSaved :
    (codec : Codec) (config : Config) (s : Store) (p : Project) (disk : Disk)
    (out : Cache.Result (Unit {0}) × Disk)
    → IsSaved codec s p disk out
    → Starts codec config s p disk out.0 (of_controller (new p config), out.1)
unfolding start
Starts-IsSaved codec config s p disk (r, after) (inl (fine, found)) =
    (refl, inl (fine, ap (λ r. new (seed_of r) config) found ∙ new-stored p config))
Starts-IsSaved codec config s p disk (r, after) (inr (failed, same)) =
    (refl, inr (failed, ap (λ r. new (seed_of r) config) same))

-- Where the scheduler runs each operation, the chunks are those of the client.
pub scheduled_reader-runs :
    {W : Type 0} (post : Exchange W) (control : Controller) (i : ℕ) (c : Client W)
    → control.stopped ≡ false
    → scheduled_reader post (λ _. runs) control i c ≡ file_reader post i c
unfolding scheduled_reader run_background scheduled
scheduled_reader-runs post control i c h = ground (arith, h)

module _ ⦃u : Unicode⦄ (libraries : Libraries) {W : Type 0} (post : Exchange W) where
  finish-Starts :
      (config : Config) (s : Store) (run : Run) (p : Project) (disk : Disk)
      → IsElsewhere run s
      → ReadsBack libraries.codec s p
      → Starts libraries.codec config s p disk
          (save libraries.codec (some s) run p disk).0
          (keep_project libraries post config (some s) run (Project.ok p) disk)
  unfolding keep_project
  finish-Starts config s run p disk elsewhere again =
      let codec = libraries.codec in
      Starts-IsSaved codec config s p disk (save codec (some s) run p disk)
        (load-save codec s run p disk elsewhere again)

  -- A reload that fetches a project returns what New makes of it, also where that is an error. If Save
  -- succeeds, the next start gets the same from New, a controller that differs only in the sort
  -- indices of its project's floors, or the same error; if Save fails, it starts as it would have
  -- before the reload. CreateTemp makes another file than the cache, and JSON reads back what it
  -- wrote, without the sort indices.
  pub reload_project-Starts :
      (config : Config) (s : Store) (run : Run) (turns : ℕ → Turn) (control : Controller)
      (c c' : Client W) (p : Project) (disk : Disk)
      → fetch_project libraries post turns control c ≡ (Project.ok p, c')
      → IsElsewhere run s
      → ReadsBack libraries.codec s p
      → let out = reload_project libraries post config (some s) run turns control c disk in
        Starts libraries.codec config s p disk
          (save libraries.codec (some s) run p disk).0
          (out.0, out.2)
  unfolding reload_project
  reload_project-Starts config s run turns control c c' p disk fetched elsewhere again =
      let saved = (save libraries.codec (some s) run p disk).0 in
      subst
        (λ (x : Project.Result Project × Client W).
          Starts libraries.codec config s p disk saved
            (keep_project libraries post config (some s) run x.0 disk))
        (sym fetched) (finish-Starts config s run p disk elsewhere again)
