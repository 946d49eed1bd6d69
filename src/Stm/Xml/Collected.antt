-- ===== src/Stm/Xml/Collected.antt =====
-- The values and the members that the loops of decodeArray and decodeStruct collect.
use phcremote_control.Prelude.{◌≡◌, refl, ap, ◌∙◌, false, ◌||◌, arith}
use phcremote_control.Text.{Text, ◌==ₜ◌, ==ₜ_iff}
use phcremote_control.Stm.Value.{
  Value, Values, Members, no_values, value, no_members, member, add_value, set_member, has_member,
}
use phcremote_control.Stm.Xml.Written.{IsSendable, MembersSendable}

unfoldable pub add_values : Values → Values → Values
add_values out no_values = out
add_values out (value v vs) = add_values (add_value out v) vs

unfoldable pub set_all : Members → Members → Members
set_all out no_members = out
set_all out (member n v ms) = set_all (set_member n v out) ms

unfoldable pub join_values : Values → Values → Values
join_values no_values ws = ws
join_values (value v vs) ws = value v (join_values vs ws)

unfoldable pub join_members : Members → Members → Members
join_members no_members ns = ns
join_members (member n v ms) ns = member n v (join_members ms ns)

pub join-add_value :
    (out : Values) (v : Value) (vs : Values)
    → join_values (add_value out v) vs ≡ join_values out (value v vs)
unfolding join_values add_value
join-add_value no_values v vs = refl
join-add_value (value w out) v vs = ap (value w) (join-add_value out v vs)

pub add_values-join : (out vs : Values) → add_values out vs ≡ join_values out vs
unfolding add_values join_values
add_values-join no_values no_values = refl
add_values-join (value w out) no_values = ap (value w) (add_values-join out no_values)
add_values-join out (value v vs) = add_values-join (add_value out v) vs ∙ join-add_value out v vs

pub join-set_member :
    (n : Text) (v : Value) (out ms : Members)
    → has_member n out ≡ false
    → join_members (set_member n v out) ms ≡ join_members out (member n v ms)
unfolding join_members set_member has_member
join-set_member n v no_members ms h = refl
join-set_member n v (member m w out) ms h = ground (arith, join-set_member n v out ms)

abbrev pub AllNew : Members → Members → Type 0
AllNew no_members out = Unit
AllNew (member n v ms) out = (has_member n out ≡ false) × AllNew ms out

pub has_member-set :
    (m n : Text) (v : Value) (out : Members)
    → has_member m (set_member n v out) ≡ (n ==ₜ m || has_member m out)
unfolding has_member set_member
has_member-set m n v no_members = refl
has_member-set m n v (member k w out) =
    ground (arith, ==ₜ_iff k n, ==ₜ_iff k m, ==ₜ_iff n m, has_member-set m n v out)

pub AllNew-set :
    (n : Text) (v : Value) (ms out : Members)
    → has_member n ms ≡ false
    → AllNew ms out
    → AllNew ms (set_member n v out)
unfolding has_member
AllNew-set n v no_members out h k = tt
AllNew-set n v (member m w ms) out h k = (
  ground (arith, k.0, has_member-set m n v out, ==ₜ_iff n m, ==ₜ_iff m n),
  AllNew-set n v ms out (ground arith) k.1,
)

pub set_all-join :
    (out ms : Members) → MembersSendable ms → AllNew ms out → set_all out ms ≡ join_members out ms
unfolding set_all join_members IsSendable
set_all-join no_members no_members s h = refl
set_all-join (member n w out) no_members s h = ap (member n w) (set_all-join out no_members tt tt)
set_all-join out (member n v ms) s h =
    set_all-join (set_member n v out) ms s.3 (AllNew-set n v ms out s.1 h.1)
    ∙ join-set_member n v out ms h.0

pub AllNew-none : (ms : Members) → AllNew ms no_members
unfolding has_member
AllNew-none no_members = tt
AllNew-none (member n v ms) = (refl, AllNew-none ms)

pub add_values_self : (vs : Values) → add_values no_values vs ≡ vs
unfolding join_values
add_values_self vs = add_values-join no_values vs

pub set_all_self : (ms : Members) → MembersSendable ms → set_all no_members ms ≡ ms
unfolding join_members
set_all_self ms h = set_all-join no_members ms h (AllNew-none ms)
