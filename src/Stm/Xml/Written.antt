-- ===== src/Stm/Xml/Written.antt =====
-- XML-RPC documents as the tokens that a decoder finds in them, to which
-- bridge/internal/stm/xmlrpc.go is compared.
use phcremote_control.Prelude.{◌<◌, ◌≡◌, Bool, false, List, [], ◌∷◌, ◌++◌, All, if◌then◌else◌}
use phcremote_control.Text.{Text, codes, trim_space}
use phcremote_control.Text.Decimal.{itoa, IsInt64}
use phcremote_control.Stm.Value.{
  Value, Values, Members, int, string, bytes, boolean, array, struct, no_values, value, no_members,
  member, has_member,
}
use phcremote_control.Stm.Base64.{encode64}
use phcremote_control.Stm.Xml.{Token, start, end_of, chars, comment}

-- What a writer is free in: the name of an integer's element, and the character data and the comments
-- that it puts between elements. Both may differ from place to place in a document: a place is known
-- by the tokens that follow it, of which each place has another number.
pub record Style : Type 0 where
  pub short : List Token → Bool
  pub gap : List Token → List Token

abbrev IsIgnored : Token → Type 0
IsIgnored (chars s) = Unit
IsIgnored comment = Unit
IsIgnored _ = ⊥

abbrev pub IsLayout : List Token → Type 0
IsLayout = All IsIgnored

abbrev pub HasLayout : Style → Type 0
HasLayout style = (ts : List Token) → IsLayout (style.gap ts)

-- No empty character data.
abbrev pub text_tokens : Text → List Token → List Token
text_tokens [] rest = rest
text_tokens (c ∷ s) rest = chars (c ∷ s) ∷ rest

-- An element that holds a text.
abbrev pub leaf : Text → Text → List Token → List Token
leaf name text rest = start name ∷ text_tokens text (end_of name ∷ rest)

abbrev pub int_name : Style → List Token → Text
int_name s rest = if s.short rest then codes "i4" else codes "int"

module _ (style : Style) where
  abbrev pub pad : List Token → List Token
  pad rest = style.gap rest ++ rest

  -- The content of a `value` element, of a `data` element and of a `struct` element, before the
  -- tokens that follow.
  unfoldable mutual
    pub write : Value → List Token → List Token
    write (int n) rest = leaf (int_name style rest) (itoa n) rest
    write (string s) rest = leaf (codes "string") s rest
    write (bytes b) rest = leaf (codes "base64") (encode64 b) rest
    write (boolean b) rest = leaf (codes "boolean") (codes (if b then "1" else "0")) rest
    write (array vs) rest =
        start (codes "array")
        ∷ pad (
            start (codes "data")
            ∷ write_values vs (pad (end_of (codes "data") ∷ pad (end_of (codes "array") ∷ rest))))
    write (struct ms) rest =
        start (codes "struct") ∷ write_members ms (pad (end_of (codes "struct") ∷ rest))

    pub write_values : Values → List Token → List Token
    write_values no_values rest = rest
    write_values (value v vs) rest = pad (
        start (codes "value") ∷ pad (write v (pad (end_of (codes "value") ∷ write_values vs rest))))

    pub write_members : Members → List Token → List Token
    write_members no_members rest = rest
    write_members (member name v ms) rest = pad (
        start (codes "member")
        ∷ pad (
            leaf (codes "name") name (
              pad (
                start (codes "value")
                ∷ pad (
                    write v (
                      pad (
                        end_of (codes "value")
                        ∷ pad (end_of (codes "member") ∷ write_members ms rest))))))))

  abbrev wrap : Text → List Token → List Token
  wrap name rest = pad (start name ∷ rest)

  -- A methodResponse with one parameter.
  unfoldable pub write_response : Value → List Token
  unfolding write
  write_response v = wrap (codes "methodResponse") (
      wrap (codes "params") (
        wrap (codes "param") (
          wrap (codes "value") (
            pad (
              write v (
                pad (
                  end_of (codes "value")
                  ∷ pad (
                      end_of (codes "param")
                      ∷ pad (
                          end_of (codes "params")
                          ∷ pad (end_of (codes "methodResponse") ∷ []))))))))))

-- What the format can carry: 64-bit integers, bytes, and structs whose members have names that are
-- distinct and neither begin nor end in white space.
unfoldable mutual
  pub IsSendable : Value → Type 0
  IsSendable (int n) = IsInt64 n
  IsSendable (string s) = Unit
  IsSendable (bytes b) = All (λ c. c < 256) b
  IsSendable (boolean b) = Unit
  IsSendable (array vs) = AreSendable vs
  IsSendable (struct ms) = MembersSendable ms

  pub AreSendable : Values → Type 0
  AreSendable no_values = Unit
  AreSendable (value v vs) = IsSendable v × AreSendable vs

  pub MembersSendable : Members → Type 0
  MembersSendable no_members = Unit
  MembersSendable (member name v ms) =
      (trim_space name ≡ name) × (has_member name ms ≡ false) × IsSendable v × MembersSendable ms
