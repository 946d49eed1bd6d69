-- ===== src/Web/Pages/Grouped.antt =====
-- floorViews of bridge/internal/web/pages.go: the categories of a floor.
use phcremote_control.Prelude.{ℕ, ◌+◌, ◌≤◌, ◌≡◌, Bool, Option, none, some, List, [], ◌∷◌, All}
use phcremote_control.Prelude.Dict.{Dict, lookup}
use phcremote_control.Text.{Text, ◌==ₜ◌, text_key, Unicode}
use phcremote_control.Web.Translations.{Translations}
use phcremote_control.Web.Views.{DeviceView, CategoryView}
use phcremote_control.Web.Devices.{Groups, devices_in, name_less}
use phcremote_control.Web.Pages.Counts.{count_where, IsSorted}

-- How often a category stands in the order, and how many devices of the order pass a test.
abbrev occurs : Text → List Text → ℕ
occurs c cs = count_where (λ d. d ==ₜ c) cs

abbrev weight : (DeviceView → Bool) → List Text → Dict Text (List DeviceView) → ℕ
weight p [] m = 0
weight p (c ∷ cs) m = count_where p (devices_in (lookup c m)) + weight p cs m

abbrev present : Option (List DeviceView) → ℕ
present none = 0
present (some vs) = 1

-- A category is in the order once if it has an entry, and else not.
abbrev IsOrdered : Groups → Type 0
IsOrdered g = (c : Text) → occurs c g.category_order ≡ present (lookup c g.by_category)

abbrev IsFiled : Groups → Type 0
IsFiled g =
    (c : Text) → All (λ (v : DeviceView). v.category ≡ c) (devices_in (lookup c g.by_category))

abbrev grouped : (DeviceView → Bool) → Groups → ℕ
grouped p g = weight p g.category_order g.by_category

-- What the loop over the devices of a floor keeps.
record Grouping (before : List DeviceView) (g : Groups) : Type 0 where
  total : (p : DeviceView → Bool) → grouped p g ≡ count_where p before
  ordered : IsOrdered g
  filed : IsFiled g

-- How many devices of the categories pass a test, and how many categories have a name.
abbrev pub count_views : (DeviceView → Bool) → List CategoryView → ℕ
count_views p [] = 0
count_views p (c ∷ cs) = count_where p c.devices + count_views p cs

abbrev pub count_names : Text → List CategoryView → ℕ
count_names c cs = count_where (λ (v : CategoryView). v.name ==ₜ c) cs

abbrev pub IsCategory : ⦃u : Unicode⦄ → CategoryView → Type 0
IsCategory c =
    All (λ (v : DeviceView). v.category ≡ c.name) c.devices × IsSorted name_less c.devices

module _ ⦃u : Unicode⦄ where
  -- A list of devices in categories.
  pub record Arranged (vs : List DeviceView) (cs : List CategoryView) : Type 0 where
    pub same : (p : DeviceView → Bool) → count_views p cs ≡ count_where p vs
    pub named : (c : Text) → count_names c cs ≤ 1
    pub sorted : All IsCategory cs
