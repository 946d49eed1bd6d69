-- ===== src/Controller/Bits.antt =====
-- The bit fields in the addresses and telegrams of bridge/internal/controller, by a check of all
-- their values.
use Prim.Native.Nat.{bit_or}
use phcremote_control.Prelude.{
  ℕ, zero, suc, ◌+◌, ◌*◌, ◌^◌, ◌<◌, ◌≡◌, refl, Bool, true, arith, ◌==◌, ==_iff, false,
  if◌then◌else◌,
}

-- The test holds from `n` down to 0.
holds_under : (ℕ → Bool) → ℕ → Bool
holds_under test zero = true
holds_under test (suc n) = if test n then holds_under test n else false

holds_under_lem :
    (test : ℕ → Bool) (bound k : ℕ) → k < bound → holds_under test bound ≡ true → test k ≡ true
unfolding holds_under
holds_under_lem test zero k below all = absurd (omega arith)
holds_under_lem test (suc bound) k below all = ground (arith, holds_under_lem test bound k)

address_table : holds_under (λ d. bit_or 0x40 d == 64 + d) 64 ≡ true
unfolding holds_under
address_table = refl

pub bit_or_address : (d : ℕ) → d < 64 → bit_or 0x40 d ≡ 64 + d
bit_or_address d h = (==_iff _ _).0 (holds_under_lem _ 64 d h address_table)

content_table : holds_under (λ c. holds_under (λ k. bit_or (c * 2 ^ 5) k == c * 32 + k) 8) 64 ≡ true
unfolding holds_under
content_table = refl

pub bit_or_content : (c k : ℕ) → c < 64 → k < 8 → bit_or (c * 2 ^ 5) k ≡ c * 32 + k
bit_or_content c k h l =
    (==_iff _ _).0 (holds_under_lem _ 8 k l (holds_under_lem _ 64 c h content_table))
