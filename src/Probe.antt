-- ===== src/Probe.antt =====
-- bridge/cmd/stm-probe/main.go: what the diagnostic tool computes from the project and from the
-- bytes of a response.
pub mod Addresses
pub mod Loading
use Prim.Native.Nat.{bit_and, bit_or}
use phcremote_control.Prelude.{
  ℕ, ◌-◌, Option, none, some, List, [], ◌∷◌, leb, if◌then◌else◌, length, take, ◌++◌,
}
use phcremote_control.Prelude.Int.{ℤ, pos, negsuc, ltb_ℤ, eq_ℤ, eq_ℤ_iff}
use phcremote_control.Prelude.Dict.{Key, Dict, insert}
use phcremote_control.Prelude.Sorts.{sort_stable}
use phcremote_control.Text.{Text, codes, has_prefix, Unicode}
use phcremote_control.Domain.{Device, Floor, Project}
use phcremote_control.Controller.Types.{is_amd}
use phcremote_control.Project.Errors.{Result, ok, err, ◌>>=◌}
use phcremote_control.Project.Download.{download}
use phcremote_control.Project.Archive.{Files, extract}
use phcremote_control.Project.Parse.{parse_files}
use phcremote_control.Stm.Client.{Exchange, Client}
use phcremote_control.Stm.Client.Chunks.{file_reader}
use phcremote_control.Bridge.{Libraries}

instance abbrev pub int_key : Key ℤ
int_key = record { beq = eq_ℤ; beq_iff = eq_ℤ_iff }

-- 0x40 | n, in two's complement.
unfoldable pub or_0x40 : ℤ → ℤ
or_0x40 (pos n) = pos (bit_or 0x40 n)
or_0x40 (negsuc n) = negsuc (n - bit_and 0x40 n)

-- The set of addresses, as the keys of a map.
unfoldable pub device_addresses : List Device → Dict ℤ (Unit {0}) → Dict ℤ (Unit {0})
unfolding or_0x40
device_addresses [] m = m
device_addresses (d ∷ ds) m =
    device_addresses ds (if is_amd d.ref.module_class then insert (or_0x40 d.ref.dip) tt m else m)

unfoldable pub floor_addresses : List Floor → Dict ℤ (Unit {0}) → Dict ℤ (Unit {0})
unfolding device_addresses
floor_addresses [] m = m
floor_addresses (f ∷ fs) m = floor_addresses fs (device_addresses f.devices m)

abbrev pub keys_of {ℓ κ} : {K : Type ℓ} {V : Type κ} → Dict K V → List K
keys_of [] = []
keys_of ((k, v) ∷ m) = k ∷ keys_of m

-- Whatever the order of ranging over the map: sort.Ints comes after it.
unfoldable pub pollable_module_addresses : Project → List ℤ
unfolding floor_addresses
pollable_module_addresses p = sort_stable ltb_ℤ (keys_of (floor_addresses p.floors []))

module _ ⦃u : Unicode⦄ (libraries : Libraries) {W : Type 0} (post : Exchange W) where
  unfoldable pub parse_zip : Result (List ℕ) → Result (List ℕ × Files × Project)
  parse_zip (err e) = err e
  parse_zip (ok zip) =
      extract (libraries.unzip zip)
      >>= (λ files. parse_files libraries.decoders files >>= (λ p. ok (zip, files, p)))

  -- The client is the reader, without a scheduler.
  unfoldable pub load_project : Client W → Result (List ℕ × Files × Project) × Client W
  unfolding parse_zip
  load_project c = let (zip, c') = download (file_reader post) c in (parse_zip zip, c')

-- The bytes up to and with the first occurrence of the pattern.
unfoldable pub up_to : Text → Text → Option Text
up_to pattern [] = none
up_to pattern (b ∷ bs) =
    let later = up_to pattern bs in
    if has_prefix (b ∷ bs) pattern
    then some pattern
    else elim later [ none ↦ none | some head ↦ some (b ∷ head) ]

-- The header block of a raw response, which `dump` prints.
unfoldable pub header_block : Text → Text
unfolding up_to
header_block raw = elim (up_to (13 ∷ 10 ∷ 13 ∷ 10 ∷ []) raw) [
  | some head ↦ head
  | none ↦ elim (up_to (10 ∷ 10 ∷ []) raw) [ some head ↦ head | none ↦ raw ]
]

-- On the bytes of a string; the ellipsis is one character of three bytes.
unfoldable pub redact : List ℕ → List ℕ
redact [] = codes "(empty)"
redact (b ∷ bs) =
    if leb (length (b ∷ bs)) 4 then codes "****" else take 4 (b ∷ bs) ++ 0xe2 ∷ 0x80 ∷ 0xa6 ∷ []
