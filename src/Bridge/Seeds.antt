-- ===== src/Bridge/Seeds.antt =====
-- New of bridge/internal/controller on a project that bridge/internal/cache read back.
use phcremote_control.Prelude.{◌≡◌, refl, ap, ◌∙◌, inl, inr, List, [], ◌∷◌}
use phcremote_control.Domain.{Floor, Project}
use phcremote_control.Controller.Types.{Result, Result-cases, ok, err, ◌>>=◌, Config, normalized}
use phcremote_control.Controller.Build.{
  Tables, no_tables, add_devices, add_floors, Controller, assemble, new,
}
use phcremote_control.Cache.{stored_floors, stored}

-- The same controller for another project, or the same error.
abbrev pub of_project : Project → Result Controller → Result Controller
of_project q (ok k) = ok (record k { project = q })
of_project q (err e) = err e

add_floors-stored :
    (fs : List Floor) (t : Tables) → add_floors (stored_floors fs) t ≡ add_floors fs t
unfolding add_floors stored_floors
add_floors-stored [] t = refl
add_floors-stored (f ∷ fs) t = elim (Result-cases (add_devices f.devices t)) [
  | inl (t', e) ↦ rw e (add_floors-stored fs t')
  | inr (x, e) ↦ rw e refl
]

assemble-stored :
    (p : Project) (c : Config) (r : Result Tables)
    → (r >>= (λ t. ok (assemble (stored p) c t)))
      ≡ of_project (stored p) (r >>= (λ t. ok (assemble p c t)))
unfolding assemble
assemble-stored p c (ok t) = refl
assemble-stored p c (err e) = refl

settled-stored :
    (p : Project) (r : Result Config)
    → (r >>= (λ c. add_floors (stored p).floors no_tables >>= (λ t. ok (assemble (stored p) c t))))
      ≡ of_project
          (stored p)
          (r >>= (λ c. add_floors p.floors no_tables >>= (λ t. ok (assemble p c t))))
settled-stored p (err e) = refl
settled-stored p (ok c) =
    ap (λ r. r >>= (λ t. ok (assemble (stored p) c t))) (add_floors-stored p.floors no_tables)
    ∙ assemble-stored p c (add_floors p.floors no_tables)

-- New does not read the sort indices.
pub new-stored :
    (p : Project) (config : Config) → new (stored p) config ≡ of_project (stored p) (new p config)
unfolding new
new-stored p config = settled-stored p (normalized config)
