-- ===== src/Project/Reader.antt =====
-- collectPPFX of bridge/internal/project/parser.go, over the tokens that the XML decoder gives.
pub mod Bounds
use phcremote_control.Prelude.{
  ℕ, ◌*◌, ◌^◌, true, not, List, [], ◌∷◌, ◌++◌, length, ltb, if◌then◌else◌,
}
use phcremote_control.Prelude.Int.{ℤ, negsuc}
use phcremote_control.Text.{Text, codes, ◌==ₜ◌, trim_space}
use phcremote_control.Project.Errors.{
  Result, ok, err, ◌>>=◌, empty_ppfx, ppfx_too_large, bad_xml, label_too_long, too_many_channels,
}
use phcremote_control.Project.Labels.{parse_int_or, is_blank}
use phcremote_control.Project.Channels.{RawChannel}

-- xml.Attr, with its local name.
pub record Attr : Type 0 where
  pub name : Text
  pub value : Text

-- What the loop meets, one after the other: the start and the end of an element, by its local name;
-- a CHA element, which is decoded with its text at once; any other token; an error of the decoder,
-- in a token or in a CHA element. The end of the list is the end of the input.
pub data Token : Type 0 where
  start : Text → List Attr → Token
  channel : List Attr → Text → Token
  end_of : Text → Token
  other fails : Token

-- attribute
unfoldable pub attribute : List Attr → Text → Text
attribute [] name = []
attribute (a ∷ as') name = if a.name ==ₜ name then a.value else attribute as' name

-- The variables of the loop.
pub record Reading : Type 0 where
  pub project_name : Text
  pub channels : List RawChannel
  pub module_groups : List Text
  pub module_group : Text
  pub module_name : Text
  pub module_addr : ℤ
  pub channel_group : Text

abbrev pub no_reading : Reading
no_reading = record {
  project_name = codes "PHC";
  channels = [];
  module_groups = [];
  module_group = [];
  module_name = [];
  module_addr = negsuc 0;
  channel_group = [];
}

abbrev pub max_project_xml_bytes : ℕ
max_project_xml_bytes = 8 * 2 ^ 20

abbrev pub max_visible_channels : ℕ
max_visible_channels = 4096

abbrev pub max_channel_text_runes : ℕ
max_channel_text_runes = 512

unfoldable pub start_element : Text → List Attr → Reading → Reading
start_element name attrs r =
    if name ==ₜ codes "PROJECT"
    then (let named = attribute attrs (codes "name") in
        if is_blank named then r else record r { project_name = named })
    else if name ==ₜ codes "MODS"
    then record r {
      module_groups = r.module_group ∷ r.module_groups;
      module_group = attribute attrs (codes "grp");
    }
    else if name ==ₜ codes "MOD"
    then record r {
      module_name = attribute attrs (codes "name");
      module_addr = parse_int_or (attribute attrs (codes "adr")) (negsuc 0);
    }
    else if name ==ₜ codes "CHAS"
    then record r { channel_group = attribute attrs (codes "grp") }
    else r

-- The slice moduleGroups is kept with its last element first.
abbrev pub pop_group : List Text → Reading → Reading
pop_group [] r = record r { module_group = [] }
pop_group (g ∷ gs) r = record r { module_group = g; module_groups = gs }

unfoldable pub end_element : Text → Reading → Reading
end_element name r =
    if name ==ₜ codes "MODS"
    then pop_group r.module_groups r
    else if name ==ₜ codes "MOD"
    then record r { module_name = []; module_addr = negsuc 0 }
    else if name ==ₜ codes "CHAS"
    then record r { channel_group = [] }
    else r

unfoldable pub add_channel : List Attr → Text → Reading → Result Reading
add_channel attrs text r =
    if not (attribute attrs (codes "visu") ==ₜ codes "true")
    then ok r
    else if ltb max_channel_text_runes (length text)
    then err label_too_long
    else if is_blank (trim_space text)
    then ok r
    else if not (ltb (length r.channels) max_visible_channels)
    then err too_many_channels
    else ok (record r {
      channels =
          r.channels
          ++ record {
            module_group = r.module_group;
            module_name = r.module_name;
            module_addr = r.module_addr;
            channel_group = r.channel_group;
            channel_addr = parse_int_or (attribute attrs (codes "adr")) (negsuc 0);
            text = trim_space text;
          }
            ∷ [];
    })

unfoldable pub read_token : Token → Reading → Result Reading
read_token (start name attrs) r = ok (start_element name attrs r)
read_token (channel attrs text) r = add_channel attrs text r
read_token (end_of name) r = ok (end_element name r)
read_token other r = ok r
read_token fails r = err bad_xml

unfoldable pub read_tokens : List Token → Reading → Result Reading
read_tokens [] r = ok r
read_tokens (t ∷ ts) r = read_token t r >>= read_tokens ts

-- The file has `bytes` bytes and decodes to these tokens.
unfoldable pub collect_ppfx : ℕ → List Token → Result (Text × List RawChannel)
collect_ppfx bytes tokens =
    if not (ltb 0 bytes)
    then err empty_ppfx
    else if ltb max_project_xml_bytes bytes
    then err ppfx_too_large
    else (read_tokens tokens no_reading >>= (λ r. ok (r.project_name, r.channels)))
