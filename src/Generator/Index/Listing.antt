-- ===== src/Generator/Index/Listing.antt =====
-- What the page of generator/index.go lists: every container once, the groups in order, the counts.
use mathlib.Core.List.{Permᴰ}
use mathlib.Core.Path.{subst}
use caddy_dev_local.Base.{
  ◌≡◌, refl, sym, ap, ◌∙◌, List, [], ◌∷◌, ◌++◌, list_eq, nat_eq, contains, map, filter,
}
use caddy_dev_local.Base.Dict.{lookup}
use caddy_dev_local.Base.Distinct.{Nodup, contains-sort, sort-Nodup}
use caddy_dev_local.Base.Sort.{sort, sort-perm, IsSorted, sort-IsSorted}
use caddy_dev_local.Str.{Str, str_le}
use caddy_dev_local.Str.Order.{str_le-IsLinear}
use caddy_dev_local.Generator.Index.Rows.{IndexRow}
use caddy_dev_local.Generator.Index.Groups.{
  DisplayGroup, row_le, is_stopped, in_project, group_rows, or_no_rows, no_groups, group_of,
  display_group, groups_in_order, display_groups,
}
use caddy_dev_local.Generator.Index.Laws.{
  is_up, sort-rows, of_project, projects, stored-group_rows, distinct-group_rows, names-group_rows,
}

-- Running rows first, each part in the order of the list.
abbrev pub running_first : List IndexRow → List IndexRow
running_first rows = filter is_up rows ++ filter is_stopped rows

abbrev pub all_rows : List DisplayGroup → List IndexRow
all_rows [] = []
all_rows (g ∷ gs) = g.rows ++ all_rows gs

module _ (rows : List IndexRow) where
  stored : (p : Str) → or_no_rows (lookup p (group_rows rows no_groups).groups) ≡ of_project p rows
  unfolding lookup or_no_rows
  stored p = stored-group_rows p rows no_groups

  rows-group_of :
      (p : Str)
      → (group_of (group_rows rows no_groups).groups p).rows ≡ running_first (of_project p rows)
  unfolding group_of display_group
  rows-group_of p = ap (sort row_le) (stored p) ∙ sort-rows (of_project p rows)

  pub group_of-perm :
      (p : Str) → Permᴰ (group_of (group_rows rows no_groups).groups p).rows (of_project p rows)
  unfolding group_of display_group
  group_of-perm p =
      subst (Permᴰ (sort row_le (or_no_rows (lookup p (group_rows rows no_groups).groups))))
        (stored p) (sort-perm row_le (or_no_rows (lookup p (group_rows rows no_groups).groups)))

  rows-map-group_of :
      (names : List Str)
      → map (λ g. g.rows) (map (group_of (group_rows rows no_groups).groups) names)
        ≡ map (λ p. running_first (of_project p rows)) names
  rows-map-group_of [] = refl
  rows-map-group_of (p ∷ names) = cc (rows-group_of p, rows-map-group_of names)

  project-group_of : (p : Str) → (group_of (group_rows rows no_groups).groups p).project ≡ p
  unfolding group_of display_group
  project-group_of p = refl

  project-map-group_of :
      (names : List Str)
      → map (λ g. g.project) (map (group_of (group_rows rows no_groups).groups) names) ≡ names
  project-map-group_of [] = refl
  project-map-group_of (p ∷ names) = cc (project-group_of p, project-map-group_of names)

-- The rows that belong to a project.
abbrev pub project_rows : List IndexRow → List IndexRow
project_rows = filter in_project

abbrev pub group_names : List DisplayGroup → List Str
group_names = map (λ g. g.project)

group_names-display_groups :
    (rows : List IndexRow)
    → group_names (display_groups rows)
      ≡ sort str_le (group_rows (project_rows rows) no_groups).names
unfolding display_groups groups_in_order
group_names-display_groups rows =
    project-map-group_of (project_rows rows)
      (sort str_le (group_rows (project_rows rows) no_groups).names)

rows-display_groups :
    (rows : List IndexRow)
    → map (λ g. g.rows) (display_groups rows)
      ≡ map
          (λ p. running_first (of_project p (project_rows rows)))
          (sort str_le (group_rows (project_rows rows) no_groups).names)
unfolding display_groups groups_in_order
rows-display_groups rows =
    rows-map-group_of (project_rows rows)
      (sort str_le (group_rows (project_rows rows) no_groups).names)

-- The groups are one for each project that a row has, in the order of their names, none twice, and
-- the rows of a group are those of its project, the running ones first and else in the order of the
-- list.
pub display_groups-rows :
    (rows : List IndexRow)
    → (map (λ g. g.rows) (display_groups rows)
        ≡ map
            (λ p. running_first (of_project p (project_rows rows)))
            (group_names (display_groups rows)))
      × IsSorted str_le (group_names (display_groups rows))
      × Nodup (group_names (display_groups rows))
      × ((p : Str)
          → contains (group_names (display_groups rows)) p
            ≡ contains (projects (project_rows rows)) p)
display_groups-rows rows = (
  rows-display_groups rows
      ∙ ap (map (λ p. running_first (of_project p (project_rows rows))))
          (sym (group_names-display_groups rows)),
  subst (IsSorted str_le) (sym (group_names-display_groups rows))
      (sort-IsSorted str_le str_le-IsLinear.total (group_rows (project_rows rows) no_groups).names),
  subst Nodup (sym (group_names-display_groups rows)) (
      sort-Nodup str_le (group_rows (project_rows rows) no_groups).names
        (distinct-group_rows (project_rows rows))),
  λ p.
      ap (λ l. contains l p) (group_names-display_groups rows)
      ∙ (contains-sort str_le p (group_rows (project_rows rows) no_groups).names
          ∙ names-group_rows (project_rows rows) p),
)
