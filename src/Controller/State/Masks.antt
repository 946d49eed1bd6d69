-- ===== src/Controller/State/Masks.antt =====
-- The bits of a module's reply, to which updateModuleState of bridge/internal/controller/events.go is
-- compared.
use native.Mathlib.Nat.{div-div-eq-div-mul, pow-succ'}
use phcremote_control.Prelude.{
  ℕ, zero, suc, ◌+◌, ◌*◌, ◌/◌, ◌%◌, ◌^◌, ◌-◌, ◌<◌, ◌≡◌, ◌↔◌, refl, sym, ap, ◌∙◌, Bool, true, Option,
  none, some, arith, ◌==◌, if◌then◌else◌,
}
use phcremote_control.Prelude.Int.{ℤ, pos, negsuc, pos_part, neg_part}
use phcremote_control.Controller.Types.{PowerState, unknown, power_off, power_on}
use phcremote_control.Controller.State.{power_at, already}

-- The digit of a number at a place, from the last digit on.
abbrev pub is_set : ℕ → ℕ → Bool
is_set zero n = n % 2 == 1
is_set (suc k) n = is_set k (n / 2)

-- The unsigned 64-bit number that agrees with an integer modulo 2^64.
abbrev pub IsUnsigned : ℤ → ℕ → Type 0
IsUnsigned mask n =
    (n < 2 ^ 64)
    × ((a : ℕ) × (b : ℕ) × (pos_part mask + a * 2 ^ 64 ≡ n + neg_part mask + b * 2 ^ 64))

-- The power that a mask gives to a channel: on exactly if its bit is set.
abbrev pub HasPower : ℤ → ℤ → PowerState → Type 0
HasPower mask (pos k) p =
    (n : ℕ) × (IsUnsigned mask n) × (p ≡ (if is_set k n then power_on else power_off))
HasPower mask (negsuc k) p = p ≡ power_off

shifted_bit : (k n : ℕ) → (n / 2 ^ k % 2 == 1) ≡ is_set k n
shifted_bit zero n = ground arith
shifted_bit (suc k) n =
    ap (λ m. m % 2 == 1) (ap (λ d. n / d) (pow-succ' 2 k) ∙ sym (div-div-eq-div-mul n 2 (2 ^ k)))
    ∙ shifted_bit k (n / 2)

pub power_at-HasPower : (mask k : ℤ) → HasPower mask k (power_at mask k)
unfolding power_at
power_at-HasPower (pos n) (pos k) = (
  n % 2 ^ 64,
  (omega arith, (0, n / 2 ^ 64, omega arith)),
  ap (λ b. if b then power_on else power_off) (shifted_bit k (n % 2 ^ 64)),
)
power_at-HasPower (negsuc n) (pos k) = (
  2 ^ 64 - 1 - n % 2 ^ 64,
  (omega arith, (n / 2 ^ 64 + 1, 0, omega arith)),
  ap (λ b. if b then power_on else power_off) (shifted_bit k (2 ^ 64 - 1 - n % 2 ^ 64)),
)
power_at-HasPower (pos n) (negsuc k) = refl
power_at-HasPower (negsuc n) (negsuc k) = refl

pub already-same : (q : Option PowerState) (p : PowerState) → (already q p ≡ true) ↔ (q ≡ some p)
already-same none p = ground arith
already-same (some unknown) unknown = ground arith
already-same (some unknown) power_off = ground arith
already-same (some unknown) power_on = ground arith
already-same (some power_off) unknown = ground arith
already-same (some power_off) power_off = ground arith
already-same (some power_off) power_on = ground arith
already-same (some power_on) unknown = ground arith
already-same (some power_on) power_off = ground arith
already-same (some power_on) power_on = ground arith
