-- ===== src/Tests/Codec.antt =====
-- A stand-in for encoding/json on the cache's file: it writes what JSON keeps and reads it back.
use phcremote_control.Prelude.{ℕ, zero, suc, Option, none, some, List, [], ◌∷◌, ◌++◌, length}
use phcremote_control.Prelude.Int.{ℤ, pos, negsuc}
use phcremote_control.Text.{Text}
use phcremote_control.Domain.{
  ModuleClass, emd, amd, jrm, DeviceKind, light, dimmer, outlet, shutter, scene, button, ChannelRef,
  Device, Floor,
}
use phcremote_control.Cache.{CacheFile, Codec}

infixl 5 ◌>>=◌
abbrev ◌>>=◌ : {A B : Type 0} → Option A → (A → Option B) → Option B
none >>= k = none
some a >>= k = k a

-- A reader gives a value and what is left.
abbrev Reader : Type 0 → Type 0
Reader A = List ℕ → Option (A × List ℕ)

abbrev put_int : ℤ → List ℕ
put_int (pos n) = 0 ∷ (n ∷ [])
put_int (negsuc n) = 1 ∷ (n ∷ [])

abbrev get_int : Reader ℤ
get_int (zero ∷ (n ∷ s)) = some (pos n, s)
get_int (suc _ ∷ (n ∷ s)) = some (negsuc n, s)
get_int _ = none

abbrev put_text : Text → List ℕ
put_text t = length t ∷ t

abbrev get_letters : ℕ → Reader Text
get_letters zero s = some ([], s)
get_letters (suc n) [] = none
get_letters (suc n) (c ∷ s) = get_letters n s >>= (λ (t, s'). some (c ∷ t, s'))

abbrev get_text : Reader Text
get_text [] = none
get_text (n ∷ s) = get_letters n s

abbrev class_number : ModuleClass → ℕ
class_number emd = 0
class_number amd = 1
class_number jrm = 2

abbrev class_of : ℕ → ModuleClass
class_of zero = emd
class_of (suc zero) = amd
class_of _ = jrm

abbrev put_ref : ChannelRef → List ℕ
put_ref r = class_number r.module_class ∷ (put_int r.dip ++ put_int r.channel)

abbrev get_ref : Reader ChannelRef
get_ref [] = none
get_ref (m ∷ s) = get_int s >>= (λ (d, s').
    get_int s'
    >>= (λ (c, rest). some (record { module_class = class_of m; dip = d; channel = c }, rest)))

abbrev put_up : Option ChannelRef → List ℕ
put_up none = 0 ∷ []
put_up (some r) = 1 ∷ put_ref r

abbrev get_up : Reader (Option ChannelRef)
get_up [] = none
get_up (zero ∷ s) = some (none, s)
get_up (suc _ ∷ s) = get_ref s >>= (λ (r, rest). some (some r, rest))

abbrev kind_number : DeviceKind → ℕ
kind_number light = 0
kind_number dimmer = 1
kind_number outlet = 2
kind_number shutter = 3
kind_number scene = 4
kind_number button = 5

abbrev kind_of : ℕ → DeviceKind
kind_of zero = light
kind_of (suc zero) = dimmer
kind_of (suc (suc zero)) = outlet
kind_of (suc (suc (suc zero))) = shutter
kind_of (suc (suc (suc (suc zero)))) = scene
kind_of _ = button

abbrev put_device : Device → List ℕ
put_device d =
    kind_number d.kind
    ∷ (put_text d.id
        ++ (put_text d.name ++ (put_text d.category ++ (put_ref d.ref ++ put_up d.up_ref))))

abbrev get_device : Reader Device
get_device [] = none
get_device (k ∷ s) = get_text s >>= (λ (i, s1). get_text s1 >>= (λ (n, s2).
    get_text s2 >>= (λ (c, s3). get_ref s3 >>= (λ (r, s4). get_up s4 >>= (λ (v, rest).
      some (
        record { id = i; name = n; kind = kind_of k; category = c; ref = r; up_ref = v },
        rest,
      ))))))

abbrev put_all : {A : Type 0} → (A → List ℕ) → List A → List ℕ
put_all put [] = []
put_all put (a ∷ as') = put a ++ put_all put as'

abbrev get_all : {A : Type 0} → Reader A → ℕ → Reader (List A)
get_all get zero s = some ([], s)
get_all get (suc n) s =
    get s >>= (λ (a, s1). get_all get n s1 >>= (λ (as', rest). some (a ∷ as', rest)))

-- The sort index is not written.
abbrev put_floor : Floor → List ℕ
put_floor f =
    length f.devices ∷ (put_text f.id ++ (put_text f.name ++ put_all put_device f.devices))

abbrev get_floor : Reader Floor
get_floor [] = none
get_floor (k ∷ s) = get_text s >>= (λ (i, s1). get_text s1 >>= (λ (n, s2).
    get_all get_device k s2
    >>= (λ (ds, rest). some (record { id = i; name = n; devices = ds; sort_index = pos 0 }, rest))))

abbrev put_file : CacheFile → List ℕ
put_file f =
    f.version
    ∷ (length f.project.floors
        ∷ (put_text f.stm_key ++ (put_text f.project.name ++ put_all put_floor f.project.floors)))

abbrev get_file : List ℕ → Option CacheFile
get_file (v ∷ (k ∷ s)) = get_text s >>= (λ (key, s1). get_text s1 >>= (λ (n, s2).
    get_all get_floor k s2 >>= (λ (fs, rest).
      some (record { version = v; stm_key = key; project = record { name = n; floors = fs } }))))
get_file _ = none

abbrev pub codec : Codec
codec = record {
  marshal = λ f. some (put_file f);
  unmarshal = get_file;
  hash = λ address. address;
  file_in = λ dir name. dir ++ b'/' ∷ name;
}

abbrev pub some_bytes : Option (List ℕ) → List ℕ
some_bytes none = []
some_bytes (some bs) = bs
