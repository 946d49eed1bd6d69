-- ===== src/Stm/Value.antt =====
-- The decoded values of bridge/internal/stm/xmlrpc.go.
use phcremote_control.Prelude.{ℕ, Bool, true, false, ◌||◌, Option, none, some, List, if◌then◌else◌}
use phcremote_control.Prelude.Int.{ℤ, pos}
use phcremote_control.Text.{Text, ◌==ₜ◌, trim_space}
use phcremote_control.Text.Decimal.{itoa, atoi, atoi_number}

-- What a `value` holds: int, string, []byte, bool, arrayValue or structValue. The keys of a
-- structValue stand in the order in which they were first set.
mutual
  pub data Value : Type 0 where
    int : ℤ → Value
    string : Text → Value
    bytes : List ℕ → Value
    boolean : Bool → Value
    array : Values → Value
    struct : Members → Value

  pub data Values : Type 0 where
    no_values : Values
    value : Value → Values → Values

  pub data Members : Type 0 where
    no_members : Members
    member : Text → Value → Members → Members

-- append(out, v)
unfoldable pub add_value : Values → Value → Values
add_value no_values v = value v no_values
add_value (value w vs) v = value w (add_value vs v)

-- out[name] = v
unfoldable pub set_member : Text → Value → Members → Members
set_member name v no_members = member name v no_members
set_member name v (member n w ms) =
    if n ==ₜ name then member name v ms else member n w (set_member name v ms)

-- s[name]
unfoldable pub get_member : Text → Members → Option Value
get_member name no_members = none
get_member name (member n w ms) = if n ==ₜ name then some w else get_member name ms

unfoldable pub has_member : Text → Members → Bool
has_member name no_members = false
has_member name (member n w ms) = n ==ₜ name || has_member name ms

abbrev is_some : Option ℤ → Bool
is_some none = false
is_some (some n) = true

abbrev as_int : Option Value → ℤ × Bool
as_int (some (int n)) = (n, true)
as_int (some (string t)) = (atoi_number (trim_space t), is_some (atoi (trim_space t)))
as_int _ = (pos 0, false)

abbrev as_string : Option Value → Option Text
as_string (some (string t)) = some t
as_string (some (int n)) = some (itoa n)
as_string _ = none

abbrev as_bytes : Option Value → Option (List ℕ)
as_bytes (some (bytes b)) = some b
as_bytes _ = none

-- structValue.int; the second result says whether there is such an integer.
unfoldable pub int_member : Text → Members → ℤ × Bool
unfolding get_member
int_member name ms = as_int (get_member name ms)

-- structValue.string and bytes: `none` where Go's second result is false.
unfoldable pub string_member : Text → Members → Option Text
unfolding get_member
string_member name ms = as_string (get_member name ms)

unfoldable pub bytes_member : Text → Members → Option (List ℕ)
unfolding get_member
bytes_member name ms = as_bytes (get_member name ms)
