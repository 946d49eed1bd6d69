-- ===== src/Project/Tools/Sound.antt =====
-- collectToolActions of bridge/internal/project/tools.go: what its loop keeps.
use phcremote_control.Prelude.{
  ℕ, ◌+◌, ◌≤◌, ◌<◌, ◌≡◌, ◌≢◌, refl, sym, subst, Bool, true, false, ◌||◌, ◌⊎◌, inl, inr, Bool-cases,
  Option, none, some, List, [], ◌∷◌, ◌++◌, length, length-append, arith, All, All-append,
  if◌then◌else◌,
}
use phcremote_control.Prelude.Int.{ℤ, pos, ltb_ℤ}
use phcremote_control.Text.{Text, Unicode}
use phcremote_control.Domain.{emd, ChannelRef}
use phcremote_control.Project.Errors.{Result, ok, ok-same}
use phcremote_control.Project.Labels.{is_blank}
use phcremote_control.Project.Channels.{ToolAction}
use phcremote_control.Prelude.Sorts.{sort_stable}
use phcremote_control.Project.Builder.References.{sort_stable-All}
use phcremote_control.Project.Tools.{
  Tools, max_tool_actions, max_tool_candidates, max_location_depth, enter_location, drop_first,
  candidate_for, leave_element, leave_location, add_candidate, floor_in, action_for, add_action,
  end_tool,
}
use phcremote_control.Project.Actions.{
  ActionKind, panic, presence, ToolCandidate, Attributes, candidate_less, first_of,
  preferred_tool_candidate, default_action_floor,
}

-- An input channel with no negative address.
pub record IsInput (r : ChannelRef) : Type 0 where
  pub class : r.module_class ≡ emd
  pub dip : ltb_ℤ r.dip (pos 0) ≡ false
  pub channel : ltb_ℤ r.channel (pos 0) ≡ false

pub record IsToolAction (a : ToolAction) : Type 0 where
  pub input : IsInput a.ref
  pub floor : a.floor ≢ []

abbrev pub pushed : List Bool → ℕ
pushed [] = 0
pushed (b ∷ bs) = (if b then 1 else 0) + pushed bs

-- The locations, and the elements that pushed one.
pub record AreLocations (locations : List Text) (elements : List Bool) : Type 0 where
  pub pushes : pushed elements ≡ length locations
  pub depth : length locations ≤ max_location_depth
  pub named : All (λ s. s ≢ []) locations

pub record AreCandidates (cs : List ToolCandidate) : Type 0 where
  pub count : length cs ≤ max_tool_candidates
  pub inputs : All (λ c. IsInput c.ref) cs

pub record AreActions (as' : List ToolAction) : Type 0 where
  pub count : length as' ≤ max_tool_actions
  pub each : All IsToolAction as'

pub record IsSound (t : Tools) : Type 0 where
  pub locations : AreLocations t.locations t.location_elements
  pub candidates : AreCandidates t.candidates
  pub actions : AreActions t.actions

there : (s : Text) → is_blank s ≡ false → s ≢ []
there [] h e = cc
there (c ∷ s) h e = cc

entered :
    (name : Text) (t t' : Tools) (b : Bool) (ls : List Text)
    → Result.ok (record t { locations = ls; location_elements = b ∷ t.location_elements }) ≡ ok t'
    → record t { locations = ls; location_elements = b ∷ t.location_elements } ≡ t'
entered name t t' b ls e = ok-same e

pub enter_location-IsSound :
    (name : Text) (t t' : Tools) → enter_location name t ≡ ok t' → IsSound t → IsSound t'
unfolding enter_location
enter_location-IsSound name t t' e s = elim (Bool-cases (is_blank name)) [
  | inl blank ↦
      subst IsSound (entered name t t' false t.locations (ground (arith, e, blank))) (record {
        locations = record {
          pushes = omega (arith, s.locations.pushes);
          depth = s.locations.depth;
          named = s.locations.named;
        };
        candidates = s.candidates;
        actions = s.actions;
      })
  | inr named ↦
      let room : length t.locations < max_location_depth = ground (arith, e, named) in
      subst IsSound (entered name t t' true (name ∷ t.locations) (ground (arith, e, named)))
        (record {
          locations = record {
            pushes = omega (arith, s.locations.pushes);
            depth = omega (arith, room);
            named = (there name named, s.locations.named);
          };
          candidates = s.candidates;
          actions = s.actions;
        })
]

dropped-AreLocations :
    (ls : List Text) (bs : List Bool)
    → AreLocations ls (true ∷ bs)
    → AreLocations (drop_first ls) bs
dropped-AreLocations [] bs a = absurd (omega (arith, a.pushes))
dropped-AreLocations (l ∷ ls) bs a = record {
  pushes = omega (arith, a.pushes);
  depth = omega (arith, a.depth);
  named = a.named.1;
}

kept-AreLocations :
    (ls : List Text) (bs : List Bool) → AreLocations ls (false ∷ bs) → AreLocations ls bs
kept-AreLocations ls bs a = record {
  pushes = omega (arith, a.pushes);
  depth = a.depth;
  named = a.named;
}

leave_element-IsSound :
    (bs : List Bool) (t : Tools)
    → AreLocations t.locations bs
    → IsSound t
    → IsSound (leave_element bs t)
leave_element-IsSound [] t a s = s
leave_element-IsSound (true ∷ bs) t a s = record {
  locations = dropped-AreLocations t.locations bs a;
  candidates = s.candidates;
  actions = s.actions;
}
leave_element-IsSound (false ∷ bs) t a s = record {
  locations = kept-AreLocations t.locations bs a;
  candidates = s.candidates;
  actions = s.actions;
}

pub leave_location-IsSound : (t : Tools) → IsSound t → IsSound (leave_location t)
unfolding leave_location
leave_location-IsSound t s = leave_element-IsSound t.location_elements t s.locations s

-- A candidate is left out, or comes last.
abbrev Grows : ℤ → ℤ → Tools → Tools → Type 0
Grows m k t t' =
    (t ≡ t')
    ⊎ ((c : ToolCandidate) × (record t { candidates = t.candidates ++ c ∷ [] } ≡ t')
        × (c.ref ≡ record { module_class = emd; dip = m; channel = k })
        × (length t.candidates < max_tool_candidates)
        × (ltb_ℤ m (pos 0) ≡ false)
        × (ltb_ℤ k (pos 0) ≡ false))

add_candidate-Grows :
    ⦃u : Unicode⦄ (node : Attributes) (m k : ℤ) (t t' : Tools)
    → add_candidate node m k t ≡ ok t'
    → Grows m k t t'
unfolding add_candidate
add_candidate-Grows node m k t t' e = elim (Bool-cases (ltb_ℤ m (pos 0) || ltb_ℤ k (pos 0))) [
  | inl negative ↦ inl (ok-same (ground (arith, e, negative)))
  | inr there ↦
      let c = candidate_for node m k in
      let more : record t { candidates = t.candidates ++ c ∷ [] } ≡ t' =
        ok-same (ground (arith, e, there)) in
      inr (c, more, refl, ground (arith, e, there), ground (arith, there), ground (arith, there))
]

grown-IsSound : (m k : ℤ) (t t' : Tools) → Grows m k t t' → IsSound t → IsSound t'
grown-IsSound m k t t' (inl same) s = subst IsSound same s
grown-IsSound m k t t' (inr (c, more, ref, room, a, b)) s =
    let input : IsInput (record { module_class = emd; dip = m; channel = k }) = record {
      class = refl;
      dip = a;
      channel = b;
    } in
    subst IsSound more (record {
      locations = s.locations;
      candidates = record {
        count = omega (arith, room, length-append t.candidates (c ∷ []));
        inputs =
            All-append _ t.candidates (c ∷ []) s.candidates.inputs
              (subst IsInput (sym ref) input, tt);
      };
      actions = s.actions;
    })

pub add_candidate-IsSound :
    ⦃u : Unicode⦄ (node : Attributes) (m k : ℤ) (t t' : Tools)
    → add_candidate node m k t ≡ ok t'
    → IsSound t
    → IsSound t'
add_candidate-IsSound node m k t t' e s =
    grown-IsSound m k t t' (add_candidate-Grows node m k t t' e) s

first-IsInput :
    (c : ToolCandidate) (cs : List ToolCandidate)
    → IsInput c.ref
    → All (λ x. IsInput x.ref) cs
    → IsInput (first_of c cs).ref
first-IsInput c [] h k = h
first-IsInput c (d ∷ cs) h k = k.0

preferred-IsInput :
    (c : ToolCandidate) (cs : List ToolCandidate)
    → All (λ x. IsInput x.ref) (c ∷ cs)
    → IsInput (preferred_tool_candidate c cs).ref
unfolding preferred_tool_candidate
preferred-IsInput c cs h =
    first-IsInput c (sort_stable candidate_less (c ∷ cs)) h.0
      (sort_stable-All _ candidate_less (c ∷ cs) h)

floor_there : (kind : ActionKind) (ls : List Text) → All (λ l. l ≢ []) ls → floor_in kind ls ≢ []
unfolding default_action_floor
floor_there panic [] h e = cc
floor_there presence [] h e = cc
floor_there kind (l ∷ ls) h e = h.0 e

-- The two ways of a conditional.
pub chosen {ℓ} :
    {A : Type ℓ} (b : Bool) (x y : A) {z : A} → b ≡ true → (if b then x else y) ≡ z → x ≡ z
chosen true x y h e = e
chosen false x y h e = cc

pub passed {ℓ} :
    {A : Type ℓ} (b : Bool) (x y : A) {z : A} → b ≡ false → (if b then x else y) ≡ z → y ≡ z
passed true x y h e = cc
passed false x y h e = e

pub started :
    (t : Tools) (m : Option Attributes)
    → IsSound t
    → IsSound (record t { tool = m; candidates = [] })
started t m s = record {
  locations = s.locations;
  candidates = record { count = omega arith; inputs = tt };
  actions = s.actions;
}

pub noded : (t : Tools) (m : Option Attributes) → IsSound t → IsSound (record t { node = m })
noded t m s = record { locations = s.locations; candidates = s.candidates; actions = s.actions }

pub add_action-IsSound :
    (kind : Option ActionKind) (cs : List ToolCandidate) (t t' : Tools)
    → AreCandidates cs
    → add_action kind cs t ≡ ok t'
    → IsSound t
    → IsSound t'
unfolding add_action
add_action-IsSound none cs t t' a e s = subst IsSound (ok-same e) s
add_action-IsSound (some kind) [] t t' a e s = subst IsSound (ok-same e) s
add_action-IsSound (some kind) (c ∷ cs) t t' a e s =
    let fresh = action_for kind (preferred_tool_candidate c cs) t in
    let room : length t.actions < max_tool_actions = ground (arith, e) in
    let more : record t { actions = t.actions ++ fresh ∷ [] } ≡ t' = ok-same (ground (arith, e)) in
    subst IsSound more (record {
      locations = s.locations;
      candidates = s.candidates;
      actions = record {
        count = omega (arith, room, length-append t.actions (fresh ∷ []));
        each = All-append IsToolAction t.actions (fresh ∷ []) s.actions.each (
          record {
            input = preferred-IsInput c cs a.inputs;
            floor = floor_there kind t.locations s.locations.named;
          },
          tt,
        );
      };
    })

pub end_tool-IsSound : (t : Tools) → IsSound t → IsSound (end_tool t)
end_tool-IsSound t s = record {
  locations = s.locations;
  candidates = record { count = omega arith; inputs = tt };
  actions = s.actions;
}
