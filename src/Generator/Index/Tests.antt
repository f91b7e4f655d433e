-- ===== src/Generator/Index/Tests.antt =====
-- generator/index.go on examples.
use mathlib.Core.List.{Permᴰ}
use caddy_dev_local.Base.{
  ℕ, ◌+◌, ◌≡◌, refl, true, Option, none, List, [], ◌∷◌, ◌++◌, nat_eq, list_eq, contains, map,
  filter, length, inl,
}
use caddy_dev_local.Base.Dict.{Dict}
use caddy_dev_local.Base.Distinct.{Nodup}
use caddy_dev_local.Base.Sort.{IsSorted}
use caddy_dev_local.Str.{Str, codes, str_le}
use caddy_dev_local.Generator.{ContainerInfo, Containers}
use caddy_dev_local.Generator.Samples.{old, with_port_selected}
use caddy_dev_local.Generator.Index.{IndexData, escaped, generate_index_page}
use caddy_dev_local.Generator.Index.Chips.{DomainEntry, chip}
use caddy_dev_local.Generator.Index.Rows.{IndexRow, index_row}
use caddy_dev_local.Generator.Index.Groups.{display_groups}
use caddy_dev_local.Generator.Index.Laws.{of_project, projects}
use caddy_dev_local.Generator.Index.Listing.{
  all_rows, running_first, project_rows, group_names, display_groups-rows,
}
use caddy_dev_local.Generator.Index.Partition.{page, page-IsComplete, page_counts}

abbrev composed : ContainerInfo
composed = record with_port_selected {
  is_compose = true;
  project = codes "p";
  service = codes "s";
  ports = 8080 ∷ 80 ∷ [];
}

abbrev format_time : ℕ → Str
format_time t = []

abbrev no_json : Dict Str Str → Option Str
no_json labels = none

abbrev no_recode : Str → Option Str
no_recode s = none

abbrev shown : List ContainerInfo
shown = old ∷ composed ∷ record old { is_compose = true; project = codes "p" } ∷ []

abbrev rows : List IndexRow
rows = map (index_row format_time no_json (codes "t") true) shown

abbrev data_of : IndexData
data_of = page format_time no_json no_recode (codes "t") true [] [] 0 shown

-- Of the two containers of the project the running one comes first.
names_in_groups :
    map (λ r. r.container_name) (all_rows (display_groups rows)) ≡ codes "web" ∷ codes "old" ∷ []
unfolding display_groups index_row
names_in_groups = refl

-- The HTTP port comes first, at its effective number.
ports_of_row :
    map
      (λ e. map (λ c. c.port_str) e.chips)
      (index_row format_time no_json (codes "t") true composed).domains
    ≡ (codes "8080" ∷ codes "8080" ∷ []) ∷ (codes "8080" ∷ codes "8080" ∷ []) ∷ []
unfolding index_row
ports_of_row = refl

escaped_runs : escaped (codes "<&") ≡ 92 ∷ codes "u003c" ++ 92 ∷ codes "u0026"
unfolding escaped
escaped_runs = refl

template_error :
    generate_index_page format_time no_json no_recode (λ d. inl (codes "x")) [] true [] [] [] 0
    ≡ codes "template error: x"
unfolding generate_index_page
template_error = refl

page-IsComplete_example : Permᴰ (data_of.display_rows ++ all_rows data_of.groups) rows
page-IsComplete_example =
    page-IsComplete format_time no_json no_recode (codes "t") true [] [] 0 shown

page_counts_example :
    (data_of.running_count ≡ length (filter (λ c. c.is_running) shown))
    × (data_of.running_count + data_of.stopped_count ≡ length shown)
page_counts_example = page_counts format_time no_json no_recode (codes "t") true [] [] 0 shown

display_groups-rows_example :
    (map (λ g. g.rows) (display_groups rows)
      ≡ map
          (λ p. running_first (of_project p (project_rows rows)))
          (group_names (display_groups rows)))
    × IsSorted str_le (group_names (display_groups rows))
    × Nodup (group_names (display_groups rows))
    × ((p : Str)
        → contains (group_names (display_groups rows)) p
          ≡ contains (projects (project_rows rows)) p)
display_groups-rows_example = display_groups-rows rows

abbrev entry : DomainEntry
entry = record {
  domain = codes "a";
  chips = chip (codes "a") (codes "80") ∷ chip (codes "a") (codes "8080") ∷ [];
  url = codes "https://a";
}

abbrev listed : Containers
listed = (codes "w1", with_port_selected) ∷ (codes "o1", old) ∷ []
