-- ===== src/Domain/Ids.antt =====
-- StableDeviceID of bridge/internal/domain/model.go.
use phcremote_control.Prelude.{◌≡◌, ◌≢◌, arith, All, All-mono}
use phcremote_control.Prelude.Int.{ℤ}
use phcremote_control.Text.{codes, append-separator, append_cancel}
use phcremote_control.Text.Decimal.{itoa, itoa-below, itoa_injective}
use phcremote_control.Domain.{
  ModuleClass, emd, amd, jrm, ChannelRef, module_class_text, stable_device_id,
}

itoa-Avoids : (a : ℤ) → All (λ c. c ≢ b':') (itoa a)
itoa-Avoids a = All-mono (λ c h. omega arith) (itoa a) (itoa-below a)

module_class-Avoids : (m : ModuleClass) → All (λ c. c ≢ b':') (module_class_text m)
unfolding module_class_text
module_class-Avoids emd = omega arith
module_class-Avoids amd = omega arith
module_class-Avoids jrm = omega arith

module_class_text_injective :
    (m n : ModuleClass) → module_class_text m ≡ module_class_text n → m ≡ n
unfolding module_class_text
module_class_text_injective m n e = ground arith

-- Two references with the same identity are the same reference.
pub stable_device_id_injective :
    (a b : ChannelRef) → stable_device_id a ≡ stable_device_id b → a ≡ b
unfolding stable_device_id
stable_device_id_injective a b e =
    let (m, rest) =
      append-separator b':' _ _ _ _ (module_class-Avoids a.module_class)
        (module_class-Avoids b.module_class) (append_cancel (codes "device:v1:") _ _ e) in
    let (d, c) = append-separator b':' _ _ _ _ (itoa-Avoids a.dip) (itoa-Avoids b.dip) rest in
    λ i. record {
      module_class = module_class_text_injective _ _ m i;
      dip = itoa_injective _ _ d i;
      channel = itoa_injective _ _ c i;
    }
