-- ===== src/Probe/Loading.antt =====
-- loadProject of bridge/cmd/stm-probe/main.go, beside the reload of bridge/cmd/phc-bridge/main.go.
use phcremote_control.Prelude.{
  ℕ, ◌≡◌, refl, sym, ap, ap₂, Bool-cases, ◌∙◌, ◌⊎◌, inl, inr, List, [], ◌∷◌, length, ◌≤◌, subst,
  arith,
}
use phcremote_control.Text.{Unicode}
use phcremote_control.Domain.{Project}
use phcremote_control.Controller.Types as Controller
use phcremote_control.Controller.Build.{Controller}
use phcremote_control.Controller.Run.{Turn, runs, refuses, abandons, scheduled}
use phcremote_control.Controller.Access.{run_background}
use phcremote_control.Project.Errors as Project
use phcremote_control.Project.Errors.{◌>>=◌, >>=-eq-ok}
use phcremote_control.Project.Download.{FileChunk, max_zip_bytes, download}
use phcremote_control.Project.Download.Chunks.{
  Serves, ends, reads, download_sound, download_complete,
}
use phcremote_control.Project.Archive.{Files, extract}
use phcremote_control.Project.Parse.{parse_files}
use phcremote_control.Stm.Client.{Exchange, Client}
use phcremote_control.Stm.Client.Chunks.{file_reader}
use phcremote_control.Bridge.{Libraries, parse_archive, fetch_project, scheduled_reader}
use phcremote_control.Probe.{parse_zip, load_project}

Turn-cases :
    (t : Turn)
    → (t ≡ runs)
      ⊎ (((e : Controller.Error) × (t ≡ refuses e)) ⊎ ((e : Controller.Error) × (t ≡ abandons e)))
Turn-cases runs = inl refl
Turn-cases (refuses e) = inr (inl (e, refl))
Turn-cases (abandons e) = inr (inr (e, refl))

module _ {W : Type 0} (post : Exchange W) (turns : ℕ → Turn) (control : Controller) where
  -- A chunk comes through the scheduler only from a call that the STM answered with it.
  scheduled_reader-direct :
      (i : ℕ) (c c' : Client W) (k : FileChunk)
      → scheduled_reader post turns control i c ≡ (inl k, c')
      → file_reader post i c ≡ (inl k, c')
  unfolding scheduled_reader run_background scheduled
  scheduled_reader-direct i c c' k e = elim (Bool-cases control.stopped) [
    | inl stopped ↦ absurd (ground (arith, e, stopped))
    | inr active ↦ elim (Turn-cases (turns i)) [
      | inl ran ↦ ground (arith, e, active, ran)
      | inr (inl (x, refused)) ↦ absurd (ground (arith, e, active, refused))
      | inr (inr (x, abandoned)) ↦ absurd (ground (arith, e, active, abandoned))
    ]
  ]

  Serves-direct :
      (i : ℕ) (c c' : Client W) (ks : List FileChunk)
      → Serves (scheduled_reader post turns control) i c ks c'
      → Serves (file_reader post) i c ks c'
  Serves-direct i c _ [] ends = ends
  Serves-direct i c c' (k ∷ ks) (reads {w' = v} got s) =
      reads (scheduled_reader-direct i c v k got) (Serves-direct _ v c' ks s)

  download-direct :
      (c c' : Client W) (bytes : List ℕ)
      → download (scheduled_reader post turns control) c ≡ (Project.ok bytes, c')
      → download (file_reader post) c ≡ (Project.ok bytes, c')
  download-direct c c' bytes e =
      let f = download_sound (scheduled_reader post turns control) c c' bytes e in
      download_complete (file_reader post) f.total c c' f.chunks
        (Serves-direct 0 c c' f.chunks f.served) f.ordered f.begun f.plausible
        (subst (λ bs. length bs ≤ max_zip_bytes) f.content f.fits)
      ∙ ap (λ bs. (Project.ok bs, c')) (sym f.content)

module _ ⦃u : Unicode⦄ (libraries : Libraries) {W : Type 0} (post : Exchange W) where
  -- An archive that parses: its bytes, its files and the project.
  parse_archive-zip :
      (zip : Project.Result (List ℕ)) (p : Project)
      → parse_archive libraries post zip ≡ Project.ok p
      → (bytes : List ℕ) × (files : Files) × (zip ≡ Project.ok bytes)
        × (parse_zip libraries post (Project.ok bytes) ≡ Project.ok (bytes, files, p))
  unfolding parse_archive parse_zip
  parse_archive-zip (Project.err e) p h = cc
  parse_archive-zip (Project.ok bytes) p h =
      let (files, one, two) =
        >>=-eq-ok (extract (libraries.unzip bytes)) (parse_files libraries.decoders) h in
      (bytes, files, refl, rw (one, two) refl)

  -- Whatever the scheduler answers to each chunk: a project that the bridge fetches is the one that
  -- the probe loads directly from the same STM, which is left in the same state.
  pub fetch_project-load :
      (turns : ℕ → Turn) (control : Controller) (c c' : Client W) (p : Project)
      → fetch_project libraries post turns control c ≡ (Project.ok p, c')
      → (bytes : List ℕ) × (files : Files) × (load_project libraries post c
          ≡ (Project.ok (bytes, files, p), c'))
  unfolding fetch_project load_project
  fetch_project-load turns control c c' p e =
      let got = download (scheduled_reader post turns control) c in
      let (bytes, files, here, parsed) = parse_archive-zip got.0 p (ap (λ x. x.0) e) in
      let whole : got ≡ (Project.ok bytes, c') = ap₂ (λ a b. (a, b)) here (ap (λ x. x.1) e) in
      let direct = download-direct post turns control c c' bytes whole in
      (bytes, files, rw (direct, parsed) refl)
