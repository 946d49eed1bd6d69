-- ===== src/Project/Labels/Grammar.antt =====
-- parseChannelParts of bridge/internal/project/parser.go on a text that was put together from parts.
use mathlib.Core.List.{append_assoc}
use phcremote_control.Prelude.{
  ℕ, ◌≡◌, ◌≢◌, refl, sym, false, some, [], ◌∷◌, ◌++◌, arith, All, All-append, All-mono,
}
use phcremote_control.Prelude.Int.{ℤ, pos}
use phcremote_control.Text.{Text, split, join, cut}
use phcremote_control.Text.Decimal.{itoa, itoa-IsNumeral, IsInt64, atoi-itoa}
use phcremote_control.Text.Trim.{IsTrimmed, IsTrimmed-none, numeral-space}
use phcremote_control.Project.Labels.{
  ChannelParts, parse_int_or, is_blank, parse_prefix, parse_tail, parse_channel_parts,
}

-- A text is cut where the first of the bytes stands.
cut-append : (b : ℕ) (s t : Text) → All (λ c. c ≢ b) s → cut b (s ++ b ∷ t) ≡ some (s, t)
cut-append b [] t h = ground arith
cut-append b (c ∷ s) t h = ground (arith, cut-append b s t)

split-append :
    (b : ℕ) (s t : Text)
    → All (λ c. c ≢ b) s
    → split b (s ++ b ∷ t) ≡ (s, (split b t).0 ∷ (split b t).1)
split-append b [] t h = ground arith
split-append b (c ∷ s) t h = ground (arith, split-append b s t)

join-split : (b : ℕ) (s : Text) → join (b ∷ []) ((split b s).0 ∷ (split b s).1) ≡ s
join-split b [] = refl
join-split b (c ∷ s) = ground (arith, join-split b s)

-- What the project file holds for a channel: the number, the floor, the category and the label.
abbrev pub channel_text : ChannelParts → Text
channel_text p = itoa p.sort_index ++ b'.' ∷ (p.floor ++ b':' ∷ (p.category ++ b'>' ∷ p.label))

-- Where the text of the parts can be read again.
pub record IsReadable (p : ChannelParts) : Type 0 where
  pub number : IsInt64 p.sort_index
  pub prefix : IsTrimmed (itoa p.sort_index ++ b'.' ∷ p.floor)
  pub floor : IsTrimmed p.floor
  pub floor_there : p.floor ≢ []
  pub floor_colon : All (λ c. c ≢ b':') p.floor
  pub category : IsTrimmed p.category
  pub category_there : p.category ≢ []
  pub category_arrow : All (λ c. c ≢ b'>') p.category
  pub label : IsTrimmed p.label
  pub label_there : p.label ≢ []

there : (s : Text) → s ≢ [] → is_blank s ≡ false
there [] h = absurd (h refl)
there (c ∷ s) h = refl

number-read : (a : ℤ) → IsInt64 a → parse_int_or (itoa a) (pos 99) ≡ a
unfolding parse_int_or
number-read a h =
    let trimmed = IsTrimmed-none (itoa a) (All-mono numeral-space (itoa a) (itoa-IsNumeral a)) in
    let read = atoi-itoa a h in ground (arith, trimmed, read)

module _ (p : ChannelParts) (h : IsReadable p) where
  prefix-read : parse_prefix (itoa p.sort_index ++ b'.' ∷ p.floor) p.category p.label ≡ some p
  unfolding parse_prefix
  prefix-read =
      let dot =
        split-append b'.' (itoa p.sort_index) p.floor
          (All-mono (λ c n. n.2) (itoa p.sort_index) (itoa-IsNumeral p.sort_index)) in
      let whole = join-split b'.' p.floor in
      ground
        (arith, dot, whole, h.floor, there p.floor h.floor_there, number-read p.sort_index h.number)

  tail-read :
      parse_tail (itoa p.sort_index ++ b'.' ∷ p.floor) (p.category ++ b'>' ∷ p.label) ≡ some p
  unfolding parse_tail
  tail-read =
      let arrow = cut-append b'>' p.category p.label h.category_arrow in
      ground (
        arith,
        arrow,
        h.category,
        h.label,
        h.prefix,
        there p.category h.category_there,
        there p.label h.label_there,
        prefix-read,
      )

  no_colon : All (λ c. c ≢ b':') (itoa p.sort_index ++ b'.' ∷ p.floor)
  no_colon =
      All-append _ (itoa p.sort_index) (b'.' ∷ p.floor)
        (All-mono (λ c n. ground (arith, n)) (itoa p.sort_index) (itoa-IsNumeral p.sort_index))
        (ground arith, h.floor_colon)

  -- Parts with a 64-bit number, a floor without a colon and a category without an arrow, where
  -- neither the names nor the number with the floor begin or end in white space and no name is
  -- empty, are read back from their text.
  pub parse-channel_text : parse_channel_parts (channel_text p) ≡ some p
  unfolding parse_channel_parts
  parse-channel_text =
      let colon =
        cut-append b':' (itoa p.sort_index ++ b'.' ∷ p.floor) (p.category ++ b'>' ∷ p.label)
          no_colon in
      let same : channel_text p
          ≡ (itoa p.sort_index ++ b'.' ∷ p.floor) ++ b':' ∷ (p.category ++ b'>' ∷ p.label) =
        sym (append_assoc (itoa p.sort_index) (b'.' ∷ p.floor) _) in
      ground (arith, same, colon, tail-read)
