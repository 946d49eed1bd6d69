-- ===== src/Tests/Program.antt =====
-- The theorems on bridge/cmd, for an archive with a project of one lamp.
use phcremote_control.Prelude.{
  subst, List, ℕ, ◌≡◌, refl, false, map, some, List, [], ◌∷◌, fun_ext, ap, ◌∙◌,
}
use phcremote_control.Prelude.Int.{pos}
use phcremote_control.Prelude.Dict.{nat_key}
use phcremote_control.Text.{codes}
use phcremote_control.Controller.Build.{assemble}
use phcremote_control.Controller.Run.{runs}
use phcremote_control.Cache.{save, file_of}
use phcremote_control.Bridge.{
  Attempt, fails, succeeds, background_loader, Libraries, scheduled_reader, fetch_project,
  reload_project,
}
use phcremote_control.Bridge.Waits.{capped, doubled, background_loader-capped}
use phcremote_control.Project.Errors.{◌>>=◌}
use phcremote_control.Project.Archive.{Files, extract, collect, slot_of, read_entry, read_limited}
use phcremote_control.Project.Reader.{collect_ppfx, read_tokens}
use phcremote_control.Project.Builder.{
  build_project, add_all, add_outputs, pair_motors, collect_motors, add_virtuals, add_buttons,
  add_actions, finish_floors,
}
use phcremote_control.Project.Parse.{parse_files}
use phcremote_control.Bridge.{parse_archive}
use phcremote_control.Bridge.Reloads.{scheduled_reader-runs, Starts, reload_project-Starts}
use phcremote_control.Project.Errors as Project
use phcremote_control.Project.Download.{download}
use phcremote_control.Stm.Client.Chunks.{file_reader}
use phcremote_control.Cache.{file_of, stored, stored_floors}
use phcremote_control.Bridge.Reloads.{ReadsBack}
use phcremote_control.Tests.Codec.{codec, some_bytes}
use phcremote_control.Tests.Parsing.{tokens, project}
use phcremote_control.Project.Reader.{
  read_token, add_channel, attribute, start_element, end_element,
}
use phcremote_control.Text.{is_space}
use phcremote_control.Project.Labels.{
  parse_channel_parts, parse_tail, parse_prefix, classify_output, matches_keyword, parse_int_or,
}
use phcremote_control.Project.Builder.{add_output, add, place}
use phcremote_control.Prelude.Dict.{insert, lookup}
use phcremote_control.Domain.{stable_floor_id, stable_device_id}
use phcremote_control.Text.Decimal.{atoi, itoa}
use phcremote_control.Tests.Links as Links
use phcremote_control.Tests.Links.{fresh_client, after_one}
use phcremote_control.Tests.Data.{ascii, house, defaults, built}
use phcremote_control.Tests.Site.{store, good_run, old_disk, good_run-IsElsewhere}
use phcremote_control.Probe.{pollable_module_addresses, load_project}
use phcremote_control.Probe.Addresses.{pollable_module_addresses-new}
use phcremote_control.Probe.Loading.{fetch_project-load}
use phcremote_control.Tests.Commands.{built-new}

abbrev attempts : List Attempt
attempts = fails ∷ (fails ∷ (succeeds ∷ []))

background_loader-capped_example : ◌≡◌ {A = ℕ} 4_000_000_000 (capped (doubled 2_000_000_000 1))
unfolding background_loader
background_loader-capped_example = background_loader-capped attempts 1 4_000_000_000 refl

-- An archive with a project of one lamp.
abbrev libraries : Libraries
libraries = record {
  unzip = λ bytes. some (
      record {
        name = codes "project.ppfx";
        declared = 1;
        stream = some (record { bytes = 60 ∷ []; fails = false });
      }
      ∷ []);
  decoders = record {
    ppfx_tokens = λ bytes. tokens;
    tpfx_tokens = λ bytes. [];
    range_motors = λ m. m;
    range_floors = λ m. m;
  };
  codec = codec;
}

scheduled-direct : scheduled_reader Links.library (λ _. runs) built ≡ file_reader Links.library
unfolding assemble
scheduled-direct = fun_ext (λ i. fun_ext (λ c. scheduled_reader-runs Links.library built i c refl))

parsed :
    extract (libraries.unzip (80 ∷ (75 ∷ []))) >>= parse_files libraries.decoders
    ≡ Project.ok project
unfolding extract parse_files collect slot_of read_entry read_limited collect_ppfx read_tokens
    read_token add_channel attribute start_element end_element is_space build_project add_all
    add_outputs parse_channel_parts parse_tail parse_prefix add_output classify_output
    matches_keyword add place pair_motors collect_motors add_virtuals add_buttons add_actions
    finish_floors insert lookup stable_floor_id stable_device_id parse_int_or atoi itoa
parsed = refl

fetched :
    fetch_project libraries Links.library (λ _. runs) built fresh_client
    ≡ (Project.ok project, after_one)
unfolding fetch_project
fetched =
    let zip = ap (λ read. download read fresh_client) scheduled-direct ∙ Links.whole-downloaded in
    ap (λ got. (parse_archive libraries Links.library got.0, got.1)) zip
    ∙ ap (λ p. (p, after_one)) parsed

again : ReadsBack codec store project
unfolding stored_floors
again bytes e =
    let same : some_bytes (codec.marshal (file_of store project)) ≡ bytes = ap some_bytes e in
    subst (λ bs. codec.unmarshal bs ≡ some (file_of store (stored project))) same refl

reload_project-Starts_example :
    let out =
      reload_project libraries Links.library defaults
        (some store)
        good_run
        (λ _. runs)
        built
        fresh_client
        old_disk in
    Starts codec defaults store project old_disk
      (save codec (some store) good_run project old_disk).0
      (out.0, out.2)
reload_project-Starts_example =
    reload_project-Starts libraries Links.library defaults store good_run (λ _. runs) built
      fresh_client after_one project old_disk fetched good_run-IsElsewhere again

pollable_module_addresses-new_example :
    pollable_module_addresses house ≡ map pos built.module_addresses
pollable_module_addresses-new_example = pollable_module_addresses-new house defaults built built-new

fetch_project-load_example :
    (bytes : List ℕ) × (files : Files) × (load_project libraries Links.library fresh_client
      ≡ (Project.ok (bytes, files, project), after_one))
fetch_project-load_example =
    fetch_project-load libraries Links.library (λ _. runs) built fresh_client after_one project
      fetched
