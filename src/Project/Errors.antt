-- ===== src/Project/Errors.antt =====
-- The errors of bridge/internal/project.
use phcremote_control.Prelude.{ℕ, ◌≡◌, refl}
use phcremote_control.Stm.Errors as Stm
use phcremote_control.Controller.Types as Controller

-- What the ReadFile that Download calls fails with: an error of the STM client, or one of the
-- controller that schedules the call.
pub data ReadError : Type 0 where
  from_stm : Stm.StmError → ReadError
  from_controller : Controller.Error → ReadError

pub data ProjectError : Type 0 where
  -- Download
  too_many_chunks implausible_total total_changed wrong_order outside_total : ProjectError
  empty_chunk archive_too_large empty_archive : ProjectError
  read_failed : ℕ → ReadError → ProjectError
  -- Extract
  not_a_zip too_many_entries duplicate_entry no_ppfx declared_too_large open_failed : ProjectError
  entry_failed entry_too_large : ProjectError
  -- projectBuilder.add
  invalid_address duplicate_identity : ProjectError
  -- collectPPFX
  empty_ppfx ppfx_too_large bad_xml label_too_long too_many_channels : ProjectError
  -- collectToolActions
  empty_tpfx tpfx_too_large too_deep too_many_candidates too_many_actions : ProjectError

pub data Result {ℓ} (A : Type ℓ) : Type ℓ where
  ok : A → Result A
  err : ProjectError → Result A

infixl 5 ◌>>=◌
abbrev pub ◌>>=◌ {ℓ κ} : {A : Type ℓ} {B : Type κ} → Result A → (A → Result B) → Result B
ok a >>= f = f a
err e >>= f = err e

-- A chain that succeeds has an intermediate value.
pub >>=-eq-ok {ℓ κ} :
    {A : Type ℓ} {B : Type κ} {out : B} (r : Result A) (next : A → Result B)
    → r >>= next ≡ ok out
    → (found : A) × (r ≡ ok found) × (next found ≡ ok out)
>>=-eq-ok (err e) next whole = cc
>>=-eq-ok (ok found) next whole = (found, refl, whole)

pub ok-same {ℓ} : {A : Type ℓ} {a b : A} → Result.ok a ≡ ok b → a ≡ b
ok-same e = cc
