-- ===== src/Project/Tools/Limits.antt =====
-- collectToolActions of bridge/internal/project/tools.go: the limits of what it gives.
use phcremote_control.Prelude.{
  ℕ, ◌≡◌, refl, subst, ◌||◌, inl, inr, Bool-cases, Option, none, some, List, [], ◌∷◌, arith,
}
use phcremote_control.Prelude.Int.{ℤ}
use phcremote_control.Text.{Text, Unicode, codes, ◌==ₜ◌}
use phcremote_control.Project.Errors.{Result, ok, ◌>>=◌, >>=-eq-ok, ok-same}
use phcremote_control.Project.Channels.{ToolAction}
use phcremote_control.Project.Reader.{Attr}
use phcremote_control.Project.Tools.Sound.{
  AreActions, IsSound, enter_location-IsSound, leave_location-IsSound, add_candidate-IsSound,
  add_action-IsSound, end_tool-IsSound, started, noded, chosen, passed,
}
use phcremote_control.Project.Tools.{
  ToolToken, start, end_of, other, fails, Tools, no_tools, numbered, is_input_var, variable_in,
  start_tool_element, add_action, end_tool_element, tool_token, tool_tokens, collect_tool_actions,
}
use phcremote_control.Project.Actions.{ActionKind, Attributes, tool_action_kind, attributes_map}

numbered-IsSound :
    ⦃u : Unicode⦄ (node : Attributes) (m k : Option ℤ) (t t' : Tools)
    → numbered node m k t ≡ ok t'
    → IsSound t
    → IsSound t'
numbered-IsSound node (some m) (some k) t t' e s = add_candidate-IsSound node m k t t' e s
numbered-IsSound node none k t t' e s = subst IsSound (ok-same e) s
numbered-IsSound node (some m) none t t' e s = subst IsSound (ok-same e) s

variable_in-IsSound :
    ⦃u : Unicode⦄ (kind : Option ActionKind) (node : Option Attributes) (attrs : List Attr)
    (t t' : Tools)
    → variable_in kind node attrs t ≡ ok t'
    → IsSound t
    → IsSound t'
variable_in-IsSound none owner attrs t t' e s = subst IsSound (ok-same e) s
variable_in-IsSound (some kind) none attrs t t' e s = subst IsSound (ok-same e) s
variable_in-IsSound (some kind) (some node) attrs t t' e s =
    elim (Bool-cases (is_input_var node attrs)) [
      | inl input ↦ numbered-IsSound node _ _ t t' (chosen (is_input_var node attrs) _ _ input e) s
      | inr not_input ↦ subst IsSound (ok-same (passed (is_input_var node attrs) _ _ not_input e)) s
    ]

start_tool_element-IsSound :
    ⦃u : Unicode⦄ (name : Text) (attrs : List Attr) (t t' : Tools)
    → start_tool_element name attrs t ≡ ok t'
    → IsSound t
    → IsSound t'
unfolding start_tool_element
start_tool_element-IsSound name attrs t t' e s =
    elim (Bool-cases (name ==ₜ codes "PAGE" || name ==ₜ codes "LAYER")) [
      | inl page ↦ enter_location-IsSound _ t t' (chosen _ _ _ page e) s
      | inr a ↦
          let e' = passed _ _ _ a e in
          elim (Bool-cases (name ==ₜ codes "TOOL")) [
            | inl tool ↦
                subst IsSound (ok-same (chosen _ _ _ tool e'))
                  (started t (some (attributes_map attrs)) s)
            | inr b ↦
                let e'' = passed _ _ _ b e' in
                elim (Bool-cases (name ==ₜ codes "NODE")) [
                  | inl node ↦
                      subst IsSound (ok-same (chosen _ _ _ node e''))
                        (noded t (some (attributes_map attrs)) s)
                  | inr c ↦
                      let last = passed _ _ _ c e'' in
                      elim (Bool-cases (name ==ₜ codes "VAR")) [
                        | inl var ↦
                            variable_in-IsSound _ t.node attrs t t' (chosen _ _ _ var last) s
                        | inr d ↦ subst IsSound (ok-same (passed _ _ _ d last)) s
                      ]
                ]
          ]
    ]

end_tool_element-IsSound :
    ⦃u : Unicode⦄ (name : Text) (t t' : Tools)
    → end_tool_element name t ≡ ok t'
    → IsSound t
    → IsSound t'
unfolding end_tool_element
end_tool_element-IsSound name t t' e s = elim (Bool-cases (name ==ₜ codes "TOOL")) [
  | inl tool ↦
      let (mid, added, last) =
        >>=-eq-ok (add_action (tool_action_kind t.tool) t.candidates t) _ (chosen _ _ _ tool e) in
      subst IsSound (ok-same last)
        (end_tool-IsSound mid (add_action-IsSound _ t.candidates t mid s.candidates added s))
  | inr a ↦
      let e' = passed _ _ _ a e in
      elim (Bool-cases (name ==ₜ codes "NODE")) [
        | inl node ↦ subst IsSound (ok-same (chosen _ _ _ node e')) (noded t none s)
        | inr b ↦
            let last = passed _ _ _ b e' in
            elim (Bool-cases (name ==ₜ codes "PAGE" || name ==ₜ codes "LAYER")) [
              | inl page ↦
                  subst IsSound (ok-same (chosen _ _ _ page last)) (leave_location-IsSound t s)
              | inr c ↦ subst IsSound (ok-same (passed _ _ _ c last)) s
            ]
      ]
]

tool_tokens-IsSound :
    ⦃u : Unicode⦄ (xs : List ToolToken) (t t' : Tools)
    → tool_tokens xs t ≡ ok t'
    → IsSound t
    → IsSound t'
unfolding tool_tokens tool_token
tool_tokens-IsSound [] t t' e s = subst IsSound (ok-same e) s
tool_tokens-IsSound (start name attrs ∷ xs) t t' e s =
    let (mid, one, rest) = >>=-eq-ok (start_tool_element name attrs t) (tool_tokens xs) e in
    tool_tokens-IsSound xs mid t' rest (start_tool_element-IsSound name attrs t mid one s)
tool_tokens-IsSound (end_of name ∷ xs) t t' e s =
    let (mid, one, rest) = >>=-eq-ok (end_tool_element name t) (tool_tokens xs) e in
    tool_tokens-IsSound xs mid t' rest (end_tool_element-IsSound name t mid one s)
tool_tokens-IsSound (other ∷ xs) t t' e s = tool_tokens-IsSound xs t t' e s
tool_tokens-IsSound (fails ∷ xs) t t' e s = absurd cc

abbrev result : Tools → Result (List ToolAction)
result t = ok t.actions

-- The actions that are collected are at most `max_tool_actions`, each for an input channel without a
-- negative address, and on a floor with a name.
pub collect_tool_actions-AreActions :
    ⦃u : Unicode⦄ (bytes : ℕ) (xs : List ToolToken) (found : List ToolAction)
    → collect_tool_actions bytes xs ≡ ok found
    → AreActions found
unfolding collect_tool_actions
collect_tool_actions-AreActions bytes xs found e =
    let opened : (tool_tokens xs no_tools >>= result) ≡ ok found = ground (arith, e) in
    let (t, all, last) = >>=-eq-ok (tool_tokens xs no_tools) result opened in
    subst AreActions (ok-same last)
      (tool_tokens-IsSound xs no_tools t all (record {
        locations = record { pushes = refl; depth = omega arith; named = tt };
        candidates = record { count = omega arith; inputs = tt };
        actions = record { count = omega arith; each = tt };
      })).actions
