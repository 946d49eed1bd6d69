-- ===== src/Stm/Request.antt =====
-- encodeCall of bridge/internal/stm/xmlrpc.go.
pub mod Injective
use phcremote_control.Prelude.{ℕ, ◌+◌, ◌&&◌, ◌||◌, List, [], ◌∷◌, ◌++◌, leb, ◌==◌, if◌then◌else◌}
use phcremote_control.Prelude.Int.{ℤ}
use phcremote_control.Text.{Text, codes}
use phcremote_control.Text.Decimal.{itoa}

-- xml.EscapeText
escape_rune : ℕ → Text
escape_rune c =
    if c == b'"'
    then codes "&#34;"
    else if c == 0x27
    then codes "&#39;"
    else if c == b'&'
    then codes "&amp;"
    else if c == b'<'
    then codes "&lt;"
    else if c == b'>'
    then codes "&gt;"
    else if c == 9
    then codes "&#x9;"
    else if c == 10
    then codes "&#xA;"
    else if c == 13
    then codes "&#xD;"
    else if leb c 31 || leb 0xd800 c && leb c 0xdfff || c == 0xfffe || c == 0xffff
    then 0xfffd ∷ []
    else c ∷ []

unfoldable pub escape : Text → Text
unfolding escape_rune
escape [] = []
escape (c ∷ s) = escape_rune c ++ escape s

unfoldable pub encode_params : List ℤ → Text
encode_params [] = codes "</params></methodCall>"
encode_params (p ∷ ps) =
    codes "<param><value><i4>" ++ (itoa p ++ (codes "</i4></value></param>" ++ encode_params ps))

unfoldable pub encode_call : Text → List ℤ → Text
encode_call method params =
    codes "<?xml version=\"1.0\"?><methodCall><methodName>"
    ++ (escape method ++ (codes "</methodName><params>" ++ encode_params params))
