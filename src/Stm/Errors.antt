-- ===== src/Stm/Errors.antt =====
-- The errors of bridge/internal/stm.
use phcremote_control.Prelude.{ℕ, ◌≡◌, ◌⊎◌, inl, inr, refl}
use phcremote_control.Prelude.Int.{ℤ}
use phcremote_control.Text.{Text}

-- Fault
pub record Fault : Type 0 where
  pub number : ℤ
  pub message : Text

-- `out_of_fuel` has no counterpart in the program.
pub data StmError : Type 0 where
  -- xmlrpc.go
  bad_xml no_answer malformed_fault bad_base64 unsupported_charset out_of_fuel : StmError
  no_value : Text → StmError
  bad_integer : Text → StmError
  faulty : Fault → StmError
  -- client.go
  empty_address empty_host invalid_port request_failed body_failed response_too_large : StmError
  not_a_struct no_cur_or_total not_an_array element_not_int : StmError
  reply_length : ℕ → StmError
  -- transport.go
  line_too_long input_ended header_too_large : StmError
  in_status_line in_header : StmError → StmError

pub data Result {ℓ} (A : Type ℓ) : Type ℓ where
  ok : A → Result A
  err : StmError → Result A

infixl 5 ◌>>=◌
abbrev pub ◌>>=◌ {ℓ κ} : {A : Type ℓ} {B : Type κ} → Result A → (A → Result B) → Result B
ok a >>= f = f a
err e >>= f = err e

pub ok-eq {ℓ} : {A : Type ℓ} {x y : A} → Result.ok x ≡ ok y → x ≡ y
ok-eq same = cc

pub Result-cases {ℓ} :
    {A : Type ℓ} (r : Result A) → ((a : A) × (r ≡ ok a)) ⊎ ((e : StmError) × (r ≡ err e))
Result-cases (ok a) = inl (a, refl)
Result-cases (err e) = inr (e, refl)
