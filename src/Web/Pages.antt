-- ===== src/Web/Pages.antt =====
-- bridge/internal/web/pages.go: the views of the floors and the pages.
pub mod Counts
pub mod Grouped
use phcremote_control.Prelude.{Option, none, some, List, [], ◌∷◌, ◌++◌, length, ◌==◌, if◌then◌else◌}
use phcremote_control.Text.{Text, codes, ◌==ₜ◌, text_key, has_prefix, trim_prefix, Unicode}
use phcremote_control.Domain.{Device, Floor}
use phcremote_control.Controller.Types.{Snapshot}
use phcremote_control.Web.Server.{Backend, Library, Server, Request, Response, page}
use phcremote_control.Web.Guards.{not_found, require_method}
use phcremote_control.Web.Translations.{Translations}
use phcremote_control.Web.Views.{DeviceView, CategoryView, FloorView, FavouriteView, PageData}
use phcremote_control.Web.Labels.{page_language, language_query, connection_class}
use phcremote_control.Web.Devices.{make_device_view, categories_of}

-- Those of the devices of a category.
unfoldable pub favourites_in : (Text → Text) → FloorView → List DeviceView → List FavouriteView
favourites_in escape f [] = []
favourites_in escape f (d ∷ ds) =
    record { device = d; floor = f.name; url = f.url ++ (codes "#device-" ++ escape d.id) }
    ∷ favourites_in escape f ds

unfoldable pub favourites_of : (Text → Text) → FloorView → List CategoryView → List FavouriteView
unfolding favourites_in
favourites_of escape f [] = []
favourites_of escape f (c ∷ cs) = favourites_in escape f c.devices ++ favourites_of escape f cs

unfoldable pub all_favourite_views : (Text → Text) → List FloorView → List FavouriteView
unfolding favourites_of
all_favourite_views escape [] = []
all_favourite_views escape (f ∷ fs) =
    favourites_of escape f f.categories ++ all_favourite_views escape fs

find_floor : Text → List FloorView → Option FloorView
find_floor id [] = none
find_floor id (f ∷ fs) = if f.id ==ₜ id then some f else find_floor id fs

module _ ⦃u : Unicode⦄ {B : Type 0} (backend : Backend B) (library : Library) where
  unfoldable pub device_views : B → List Device → Snapshot → Translations → List DeviceView
  unfolding make_device_view
  device_views b [] s t = []
  device_views b (d ∷ ds) s t =
      make_device_view (backend.capabilities d.id b) d s t ∷ device_views b ds s t

  unfoldable pub floor_view : B → Floor → Snapshot → Text → Translations → FloorView
  unfolding language_query
  floor_view b f s lang t = record {
    id = f.id;
    name = f.name;
    url = codes "/floors/" ++ (library.path_escape f.id ++ language_query lang);
    device_count = length f.devices;
    categories = categories_of (device_views b f.devices s t);
  }

  unfoldable pub floor_views : B → List Floor → Snapshot → Text → Translations → List FloorView
  unfolding floor_view
  floor_views b [] s lang t = []
  floor_views b (f ∷ fs) s lang t = floor_view b f s lang t ∷ floor_views b fs s lang t

  page_data : Server B → Request → PageData
  unfolding page_language connection_class floor_views all_favourite_views
  page_data s r =
      let p = backend.project s.backend in
      let snap = backend.snapshot s.backend in
      let (lang, t) = page_language r in
      let floors = floor_views s.backend p.floors snap lang t in
      record {
        page = [];
        lang = lang;
        title = [];
        text = t;
        project = p;
        snapshot = snap;
        floors = floors;
        floor = none;
        all_devices = all_favourite_views library.path_escape floors;
        stm_address = s.stm_address;
        public_origin = s.origin.text;
        connection_key = connection_class snap;
      }

  abbrev titled : Text → Text → PageData → Response
  titled name title d = page (record d { page = name; title = title })

  floor_page : Option FloorView → PageData → Response
  floor_page none d = not_found
  floor_page (some f) d = page (record d { floor = some f; page = codes "floor"; title = f.name })

  find_page : Option Text → PageData → Response
  unfolding find_floor floor_page
  find_page none d = not_found
  find_page (some id) d = if id ==ₜ [] then not_found else floor_page (find_floor id d.floors) d

  route_page : Text → PageData → Response
  unfolding find_page
  route_page path d =
      if path ==ₜ codes "/"
      then titled (codes "home") d.text.home_title d
      else if path ==ₜ codes "/settings"
      then titled (codes "settings") d.text.settings d
      else if path ==ₜ codes "/acknowledgments"
      then titled (codes "acknowledgments") d.text.acknowledgments d
      else if has_prefix path (codes "/floors/")
      then find_page (library.path_unescape (trim_prefix path (codes "/floors/"))) d
      else not_found

  unfoldable pub page_response : Server B → Request → Response
  unfolding require_method page_data route_page
  page_response s r = elim (require_method (codes "GET") r) [
    | some refusal ↦ refusal
    | none ↦ route_page r.path (page_data s r)
  ]
