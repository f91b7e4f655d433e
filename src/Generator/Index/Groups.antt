-- ===== src/Generator/Index/Groups.antt =====
-- How `GenerateIndexPage` of generator/index.go groups and counts the rows.
use caddy_dev_local.Base.{
  ℕ, ◌+◌, Bool, Option, none, some, List, [], ◌∷◌, ◌++◌, nat_eq, list_eq, list_dec, nat_dec, ◌||◌,
  not, if◌then◌else◌, map, filter,
}
use caddy_dev_local.Base.Dict.{Dict, lookup, insert}
use caddy_dev_local.Base.Sort.{sort}
use caddy_dev_local.Str.{Str, codes, str_le}
use caddy_dev_local.Generator.{not_empty}
use caddy_dev_local.Generator.Index.Rows.{IndexRow}

pub record DisplayGroup : Type 0 where
  pub project : Str
  pub rows : List IndexRow
  pub running_count : ℕ
  pub stopped_count : ℕ
  pub docker_desktop_url : Str
  pub docker_desktop_label : Str

unfoldable pub project_desktop_url : Str → Str
project_desktop_url project = codes "docker-desktop://dashboard/apps/" ++ project

-- The comparison is not positive: running before stopped.
unfoldable pub row_le : IndexRow → IndexRow → Bool
row_le a b = a.is_running || not b.is_running

unfoldable pub in_project : IndexRow → Bool
unfolding not_empty
in_project r = not_empty r.compose_project

unfoldable pub top_rows : List IndexRow → List IndexRow
unfolding in_project sort row_le
top_rows rows = sort row_le (filter (λ r. not (in_project r)) rows)

-- `projectNames` and `projectGroups`
pub record Grouped : Type 0 where
  pub names : List Str
  pub groups : Dict Str (List IndexRow)

unfoldable pub add_to_group : Option (List IndexRow) → IndexRow → Grouped → Grouped
unfolding insert nat_dec list_dec
add_to_group none r g = record {
  names = g.names ++ r.compose_project ∷ [];
  groups = insert r.compose_project (r ∷ []) g.groups;
}
add_to_group (some rows) r g = record {
  names = g.names;
  groups = insert r.compose_project (rows ++ r ∷ []) g.groups;
}

unfoldable pub group_rows : List IndexRow → Grouped → Grouped
unfolding add_to_group lookup nat_dec list_dec
group_rows [] g = g
group_rows (r ∷ rows) g = group_rows rows (add_to_group (lookup r.compose_project g.groups) r g)

abbrev pub no_groups : Grouped
no_groups = record { names = []; groups = [] }

unfoldable pub or_no_rows : Option (List IndexRow) → List IndexRow
or_no_rows none = []
or_no_rows (some rows) = rows

unfoldable pub is_stopped : IndexRow → Bool
is_stopped r = not r.is_running

-- A loop that counts the rows which pass a test.
unfoldable pub count_rows : (IndexRow → Bool) → List IndexRow → ℕ
count_rows p [] = 0
count_rows p (r ∷ rows) = (if p r then 1 else 0) + count_rows p rows

unfoldable pub display_group : Str → List IndexRow → DisplayGroup
unfolding count_rows project_desktop_url is_stopped
display_group name rows = record {
  project = name;
  rows = rows;
  running_count = count_rows (λ r. r.is_running) rows;
  stopped_count = count_rows is_stopped rows;
  docker_desktop_url = project_desktop_url name;
  docker_desktop_label = codes "Open " ++ (name ++ codes " in Docker Desktop");
}

-- The sort of each group, and its entry of the page.
unfoldable pub group_of : Dict Str (List IndexRow) → Str → DisplayGroup
unfolding display_group sort row_le or_no_rows lookup nat_dec list_dec
group_of groups name = display_group name (sort row_le (or_no_rows (lookup name groups)))

unfoldable pub groups_in_order : Grouped → List DisplayGroup
unfolding group_of sort str_le
groups_in_order g = map (group_of g.groups) (sort str_le g.names)

unfoldable pub display_groups : List IndexRow → List DisplayGroup
unfolding groups_in_order group_rows in_project
display_groups rows = groups_in_order (group_rows (filter in_project rows) no_groups)

unfoldable pub count_groups : (IndexRow → Bool) → List DisplayGroup → ℕ
unfolding count_rows
count_groups p [] = 0
count_groups p (g ∷ groups) = count_rows p g.rows + count_groups p groups

unfoldable pub total_count : (IndexRow → Bool) → List IndexRow → List DisplayGroup → ℕ
unfolding count_rows count_groups
total_count p top groups = count_rows p top + count_groups p groups
