-- ===== src/Stm/Xml/Documents.antt =====
-- decodeValue of bridge/internal/stm/xmlrpc.go on values that were written.
use phcremote_control.Prelude.{
  ℕ, suc, ◌≡◌, refl, sym, subst, false, List, [], ◌∷◌, length, arith, if◌then◌else◌,
}
use phcremote_control.Text.{Text, codes, ◌==ₜ◌}
use phcremote_control.Prelude.Int.{ℤ}
use phcremote_control.Text.Decimal.{itoa, IsInt64}
use phcremote_control.Stm.Errors.{ok}
use phcremote_control.Stm.Value.{
  Value, Values, Members, int, string, bytes, boolean, array, struct, no_values, value, no_members,
  member, add_value, set_member,
}
use phcremote_control.Stm.Base64.{encode64}
use phcremote_control.Stm.Xml.{
  Token, Read, start, end_of, read_scalar, decode_value, decode_array, decode_struct,
}
use phcremote_control.Stm.Xml.Written.{
  Style, HasLayout, pad, leaf, int_name, write, write_values, write_members, IsSendable,
  AreSendable, MembersSendable,
}
use phcremote_control.Stm.Xml.Rounds.{
  Runs, round, gap-value, gap-array, gap-struct, item-array, item-struct, into_array, into_struct,
  passes_array, passes_struct,
}
use phcremote_control.Stm.Xml.Collected.{add_values, set_all, add_values_self, set_all_self}
use phcremote_control.Stm.Xml.Leaves.{
  scalar-value, read-int, read-string, read-base64, read-boolean, name-struct,
}

module _ (style : Style) (layout : HasLayout style) where
  int-read :
      (n : ℤ) (rest : List Token)
      → IsInt64 n
      → read_scalar (int_name style rest) (itoa n) ≡ ok (int n)
  int-read n rest h = read-int (int_name style rest) n (ground arith) h

  int_name-plain :
      (rest : List Token)
      → ((int_name style rest ==ₜ codes "array") ≡ false)
        × ((int_name style rest ==ₜ codes "struct") ≡ false)
  int_name-plain rest = ground arith

  close_value :
      (out : Values) (ts : List Token) (r : Read Value)
      → Runs (λ f. decode_array f out ts) (length ts) r
      → let closed = end_of (codes "value") ∷ ts in
        Runs (λ f. decode_array f out (pad style closed)) (length (pad style closed)) r
  close_value out ts r k =
      gap-array (style.gap (end_of (codes "value") ∷ ts)) (end_of (codes "value") ∷ ts) out r
        (layout _)
        (passes_array (end_of (codes "value")) out ts r (λ f. unfold decode_value in refl) k)

  close_array :
      (out : Values) (rest : List Token)
      → let last = pad style (end_of (codes "array") ∷ rest) in
        let closed = end_of (codes "data") ∷ last in
        Runs
          (λ f. decode_array f out (pad style closed))
          (length (pad style closed))
          (ok (array out, rest))
  unfolding decode_value
  close_array out rest =
      let last = pad style (end_of (codes "array") ∷ rest) in
      gap-array (style.gap (end_of (codes "data") ∷ last)) (end_of (codes "data") ∷ last) out
        (ok (array out, rest)) (layout _)
        (passes_array (end_of (codes "data")) out last (ok (array out, rest)) (λ f. refl)
          (gap-array (style.gap (end_of (codes "array") ∷ rest)) (end_of (codes "array") ∷ rest) out
            (ok (array out, rest)) (layout _)
            (round (λ f. decode_array f out (end_of (codes "array") ∷ rest)) (length rest)
              (ok (array out, rest)) (λ f h. refl))))

  open_array :
      (out : Values) (ts : List Token) (r : Read Value)
      → Runs (λ f. decode_array f out ts) (length ts) r
      → let opened = start (codes "data") ∷ ts in
        Runs (λ f. decode_array f out (pad style opened)) (length (pad style opened)) r
  unfolding decode_value
  open_array out ts r k =
      gap-array (style.gap (start (codes "data") ∷ ts)) (start (codes "data") ∷ ts) out r (layout _)
        (passes_array (start (codes "data")) out ts r (λ f. refl) k)

  pass_struct :
      (t : Token) (key : Text) (out : Members) (ts : List Token) (r : Read Value)
      → ((f : ℕ) → decode_struct (suc f) key out (t ∷ ts) ≡ decode_struct f key out ts)
      → Runs (λ f. decode_struct f key out ts) (length ts) r
      → Runs (λ f. decode_struct f key out (pad style (t ∷ ts))) (length (pad style (t ∷ ts))) r
  pass_struct t key out ts r e k =
      gap-struct (style.gap (t ∷ ts)) (t ∷ ts) key out r (layout _)
        (passes_struct t key out ts r e k)

  close_struct :
      (key : Text) (out : Members) (rest : List Token)
      → let closed = end_of (codes "struct") ∷ rest in
        Runs
          (λ f. decode_struct f key out (pad style closed))
          (length (pad style closed))
          (ok (struct out, rest))
  unfolding decode_value
  close_struct key out rest =
      gap-struct (style.gap (end_of (codes "struct") ∷ rest)) (end_of (codes "struct") ∷ rest) key
        out (ok (struct out, rest)) (layout _)
        (round (λ f. decode_struct f key out (end_of (codes "struct") ∷ rest)) (length rest)
          (ok (struct out, rest)) (λ f h. refl))

  abbrev Skips : Token → Type 0
  Skips t =
      (f : ℕ) (key : Text) (out : Members) (ts : List Token)
      → decode_struct (suc f) key out (t ∷ ts) ≡ decode_struct f key out ts

  Skips-member : Skips (start (codes "member"))
  unfolding decode_value
  Skips-member f key out ts = refl

  Skips-value_end : Skips (end_of (codes "value"))
  unfolding decode_value
  Skips-value_end f key out ts = refl

  Skips-member_end : Skips (end_of (codes "member"))
  unfolding decode_value
  Skips-member_end f key out ts = refl

  mutual
    unfolding write IsSendable add_values set_all

    pub value-Runs :
        (v : Value) (rest : List Token) (text : Text)
        → IsSendable v
        → Runs
            (λ f. decode_value f text (write style v rest))
            (length (write style v rest))
            (ok (v, rest))
    value-Runs (int n) rest text h =
        let plain = int_name-plain rest in
        scalar-value (int_name style rest) (itoa n) rest (int n) plain.0 plain.1 (int-read n rest h)
          text
    value-Runs (string s) rest text h =
        scalar-value (codes "string") s rest (string s) refl refl (read-string s) text
    value-Runs (bytes b) rest text h =
        scalar-value (codes "base64") (encode64 b) rest (bytes b) refl refl (read-base64 b h) text
    value-Runs (boolean b) rest text h =
        scalar-value (codes "boolean") (codes (if b then "1" else "0")) rest (boolean b) refl refl
          (read-boolean b) text
    value-Runs (array vs) rest text h =
        let last = pad style (end_of (codes "array") ∷ rest) in
        let closed = pad style (end_of (codes "data") ∷ last) in
        let done =
          subst (λ out. Runs (λ f. decode_array f out closed) (length closed) (ok (array vs, rest)))
            (sym (add_values_self vs)) (close_array vs rest) in
        into_array _ text (ok (array vs, rest)) (
          open_array no_values (write_values style vs closed) (ok (array vs, rest))
            (values-Runs vs closed no_values (ok (array vs, rest)) h done))
    value-Runs (struct ms) rest text h =
        let closed = pad style (end_of (codes "struct") ∷ rest) in
        let done = λ (key : Text).
          subst
            (λ out.
              Runs (λ f. decode_struct f key out closed) (length closed) (ok (struct ms, rest)))
            (sym (set_all_self ms h)) (close_struct key ms rest) in
        into_struct _ text (ok (struct ms, rest))
          (members-Runs ms closed [] no_members (ok (struct ms, rest)) h done)

    values-Runs :
        (vs : Values) (rest : List Token) (out : Values) (r : Read Value)
        → AreSendable vs
        → Runs (λ f. decode_array f (add_values out vs) rest) (length rest) r
        → Runs
            (λ f. decode_array f out (write_values style vs rest))
            (length (write_values style vs rest))
            r
    values-Runs no_values rest out r h k = k
    values-Runs (value v vs) rest out r h k =
        let more = values-Runs vs rest (add_value out v) r h.1 k in
        let after = pad style (end_of (codes "value") ∷ write_values style vs rest) in
        gap-array (style.gap _) _ out r (layout _) (
          item-array (pad style (write style v after)) after out v r
            (gap-value (style.gap (write style v after)) (write style v after) (ok (v, after))
              (layout _) (λ text. value-Runs v after text h.0) [])
            (close_value (add_value out v) _ r more))

    members-Runs :
        (ms : Members) (rest : List Token) (key : Text) (out : Members) (r : Read Value)
        → MembersSendable ms
        → ((key' : Text) → Runs (λ f. decode_struct f key' (set_all out ms) rest) (length rest) r)
        → Runs
            (λ f. decode_struct f key out (write_members style ms rest))
            (length (write_members style ms rest))
            r
    members-Runs no_members rest key out r h k = k key
    members-Runs (member name v ms) rest key out r h k =
        let out' = set_member name v out in
        let more = members-Runs ms rest name out' r h.3 k in
        let last = pad style (end_of (codes "member") ∷ write_members style ms rest) in
        let after = pad style (end_of (codes "value") ∷ last) in
        let content = pad style (write style v after) in
        let item = pad style (start (codes "value") ∷ content) in
        pass_struct (start (codes "member")) key out _ r (λ f. Skips-member f key out _)
          (gap-struct (style.gap (leaf (codes "name") name item)) (leaf (codes "name") name item)
            key out r (layout _)
            (name-struct name key out item r h.0 (
              gap-struct (style.gap (start (codes "value") ∷ content))
                (start (codes "value") ∷ content) name out r (layout _)
                (item-struct content after name out v r
                  (gap-value (style.gap (write style v after)) (write style v after) (ok (v, after))
                    (layout _) (λ text. value-Runs v after text h.2) [])
                  (pass_struct (end_of (codes "value")) name out' last r
                    (λ f. Skips-value_end f name out' last)
                    (pass_struct (end_of (codes "member")) name out' _ r
                      (λ f. Skips-member_end f name out' _) more))))))
