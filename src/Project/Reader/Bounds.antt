-- ===== src/Project/Reader/Bounds.antt =====
-- collectPPFX of bridge/internal/project/parser.go: the channels that it gives.
use phcremote_control.Prelude.{
  ℕ, ◌≤◌, ◌<◌, ◌≡◌, ◌≢◌, refl, sym, subst, ◌∙◌, false, List, [], ◌∷◌, ◌++◌, length, length-append,
  arith, All, All-append, Bool-cases, inl, inr, ◌⊎◌,
}
use phcremote_control.Prelude.Int.{negsuc}
use phcremote_control.Text.{Text, codes, ◌==ₜ◌, trim_space}
use phcremote_control.Project.Errors.{Result, ok, ◌>>=◌, >>=-eq-ok}
use phcremote_control.Project.Labels.{is_blank, parse_int_or}
use phcremote_control.Project.Channels.{RawChannel}
use phcremote_control.Project.Reader.{
  Attr, Token, start, channel, end_of, other, fails, attribute, Reading, no_reading,
  max_visible_channels, max_channel_text_runes, start_element, end_element, add_channel, read_token,
  read_tokens, collect_ppfx,
}

-- The text of the channel is a trimmed label.
abbrev pub IsLabelled : RawChannel → Type 0
IsLabelled c =
    (c.text ≢ [])
    × ((source : Text) × (length source ≤ max_channel_text_runes) × (c.text ≡ trim_space source))

pub record IsBounded (channels : List RawChannel) : Type 0 where
  pub count : length channels ≤ max_visible_channels
  pub labels : All IsLabelled channels

start_element-channels :
    (name : Text) (attrs : List Attr) (r : Reading)
    → (start_element name attrs r).channels ≡ r.channels
unfolding start_element
start_element-channels name attrs r = ground arith

end_element-channels : (name : Text) (r : Reading) → (end_element name r).channels ≡ r.channels
unfolding end_element
end_element-channels name r = ground arith

same_channels : (r r' : Reading) → Result.ok r ≡ ok r' → r'.channels ≡ r.channels
same_channels r r' e = ground (arith, e)

-- A channel is left out, or comes last with a label that passed the checks.
abbrev Grows : Text → Reading → Reading → Type 0
Grows text r r' =
    (r'.channels ≡ r.channels)
    ⊎ ((c : RawChannel) × (r'.channels ≡ r.channels ++ c ∷ [])
        × (c.text ≡ trim_space text)
        × (c.text ≢ [])
        × (length text ≤ max_channel_text_runes)
        × (length r.channels < max_visible_channels))

-- The channel that is added.
abbrev entry : List Attr → Text → Reading → RawChannel
entry attrs text r = record {
  module_group = r.module_group;
  module_name = r.module_name;
  module_addr = r.module_addr;
  channel_group = r.channel_group;
  channel_addr = parse_int_or (attribute attrs (codes "adr")) (negsuc 0);
  text = trim_space text;
}

not_blank : (s : Text) → is_blank s ≡ false → s ≢ []
not_blank [] h e = cc
not_blank (c ∷ s) h e = cc

add_channel-Grows :
    (attrs : List Attr) (text : Text) (r r' : Reading)
    → add_channel attrs text r ≡ ok r'
    → Grows text r r'
unfolding add_channel
add_channel-Grows attrs text r r' e =
    elim (Bool-cases (attribute attrs (codes "visu") ==ₜ codes "true")) [
      | inr hidden ↦ inl (same_channels r r' (ground (arith, e, hidden)))
      | inl shown ↦ elim (Bool-cases (is_blank (trim_space text))) [
        | inl blank ↦ inl (same_channels r r' (ground (arith, e, shown, blank)))
        | inr named ↦ inr (
          entry attrs text r,
          same_channels (record r { channels = r.channels ++ entry attrs text r ∷ [] }) r'
              (ground (arith, e, shown, named)),
          refl,
          not_blank (trim_space text) named,
          ground (arith, e, shown),
          ground (arith, e, shown, named),
        )
      ]
    ]

grown-IsBounded :
    (text : Text) (r r' : Reading) → Grows text r r' → IsBounded r.channels → IsBounded r'.channels
grown-IsBounded text r r' (inl same) b = subst IsBounded (sym same) b
grown-IsBounded text r r' (inr (c, more, one, there, short, room)) b =
    subst IsBounded (sym more) (record {
      count = omega (arith, length-append r.channels (c ∷ []));
      labels = All-append IsLabelled r.channels (c ∷ []) b.labels ((there, (text, short, one)), tt);
    })

read_token-IsBounded :
    (t : Token) (r r' : Reading)
    → read_token t r ≡ ok r'
    → IsBounded r.channels
    → IsBounded r'.channels
unfolding read_token
read_token-IsBounded (start name attrs) r r' e b =
    subst IsBounded (sym (same_channels _ r' e ∙ start_element-channels name attrs r)) b
read_token-IsBounded (channel attrs text) r r' e b =
    grown-IsBounded text r r' (add_channel-Grows attrs text r r' e) b
read_token-IsBounded (end_of name) r r' e b =
    subst IsBounded (sym (same_channels _ r' e ∙ end_element-channels name r)) b
read_token-IsBounded other r r' e b = subst IsBounded (sym (same_channels r r' e)) b
read_token-IsBounded fails r r' e b = absurd cc

read_tokens-IsBounded :
    (ts : List Token) (r r' : Reading)
    → read_tokens ts r ≡ ok r'
    → IsBounded r.channels
    → IsBounded r'.channels
unfolding read_tokens
read_tokens-IsBounded [] r r' e b = subst IsBounded (sym (same_channels r r' e)) b
read_tokens-IsBounded (t ∷ ts) r r' e b =
    let (r'', one, rest) = >>=-eq-ok (read_token t r) (read_tokens ts) e in
    read_tokens-IsBounded ts r'' r' rest (read_token-IsBounded t r r'' one b)

abbrev result : Reading → Result (Text × List RawChannel)
result r = ok (r.project_name, r.channels)

-- A project file that is read gives at most `max_visible_channels` channels, and the text of each is
-- a text of at most `max_channel_text_runes` code points without the white space around it, which
-- leaves something.
pub collect_ppfx-IsBounded :
    (bytes : ℕ) (ts : List Token) (name : Text) (channels : List RawChannel)
    → collect_ppfx bytes ts ≡ ok (name, channels)
    → IsBounded channels
unfolding collect_ppfx
collect_ppfx-IsBounded bytes ts name channels e =
    let opened : (read_tokens ts no_reading >>= result) ≡ ok (name, channels) = ground (arith, e) in
    let (r, all, last) = >>=-eq-ok (read_tokens ts no_reading) result opened in
    let same : r.channels ≡ channels = ground (arith, last) in
    subst IsBounded same
      (read_tokens-IsBounded ts no_reading r all (record { count = omega arith; labels = tt }))
