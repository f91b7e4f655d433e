-- ===== src/Generator/Index/Partition.antt =====
-- Every row of the page of generator/index.go is listed once, and counted once.
use mathlib.Core.List.{Permᴰ}
use mathlib.Core.List.Permᴰ
use mathlib.Core.Path.{subst}
use caddy_dev_local.Base.{
  ℕ, ◌+◌, ◌≡◌, refl, ap, ◌∙◌, Bool, true, false, Option, List, [], ◌∷◌, ◌++◌, ◌==◌, list_eq, nat_eq,
  not, inl, inr, contains, arith, All, Bool-cases, map, filter, if◌then◌else◌, length,
}
use caddy_dev_local.Base.Dict.{Dict}
use caddy_dev_local.Base.Distinct.{Nodup, contains-sort, sort-Nodup}
use caddy_dev_local.Base.Sort.{sort, sort-perm}
use caddy_dev_local.Str.{Str, str_le}
use caddy_dev_local.Generator.{ContainerInfo}
use caddy_dev_local.Generator.Index.{IndexData, index_data}
use caddy_dev_local.Generator.Index.Rows.{IndexRow, index_row}
use caddy_dev_local.Generator.Index.Groups.{
  DisplayGroup, row_le, is_stopped, in_project, top_rows, group_rows, no_groups, group_of,
  groups_in_order, display_groups, count_rows, count_groups, total_count,
}
use caddy_dev_local.Generator.Index.Laws.{
  of_project, projects, distinct-group_rows, names-group_rows,
}
use caddy_dev_local.Generator.Index.Listing.{all_rows, project_rows, group_of-perm}

-- The rows of the projects named, one project after the other.
abbrev collect : List IndexRow → List Str → List IndexRow
collect rows [] = []
collect rows (p ∷ names) = of_project p rows ++ collect rows names

collect-nil : (names : List Str) → collect [] names ≡ []
collect-nil [] = refl
collect-nil (p ∷ names) = collect-nil names

module _ (r : IndexRow) (rows : List IndexRow) where
  collect_unnamed :
      (names : List Str)
      → contains names r.compose_project ≡ false
      → collect (r ∷ rows) names ≡ collect rows names
  collect_unnamed [] h = refl
  collect_unnamed (p ∷ names) h = ground (arith, collect_unnamed names, h)

  collect-cons :
      (names : List Str)
      → Nodup names
      → contains names r.compose_project ≡ true
      → Permᴰ (collect (r ∷ rows) names) (r ∷ collect rows names)
  collect-cons [] u h = absurd (cc h)
  collect-cons (p ∷ names) u h = elim (Bool-cases (r.compose_project == p)) [
    | inl e ↦
        subst (Permᴰ (collect (r ∷ rows) (p ∷ names))) (ground (arith, collect_unnamed names, u.0))
          (Permᴰ.refl _)
    | inr e ↦
        subst (λ l. Permᴰ l (r ∷ collect rows (p ∷ names))) (ground (arith, e))
          (Permᴰ.trans
            (Permᴰ.append_left (of_project p rows) (collect-cons names u.1 (ground (arith, h, e))))
            (Permᴰ.middle r (of_project p rows) (collect rows names)))
  ]

-- If every project is named once, every row is collected once.
collect-perm :
    (names : List Str) (rows : List IndexRow)
    → Nodup names
    → All (λ r. contains names r.compose_project ≡ true) rows
    → Permᴰ (collect rows names) rows
collect-perm names [] u h = subst (Permᴰ (collect [] names)) (collect-nil names) (Permᴰ.refl _)
collect-perm names (r ∷ rows) u h =
    Permᴰ.trans (collect-cons r rows names u h.0) (Permᴰ.cons refl (collect-perm names rows u h.1))

each_named :
    (names : List Str) (rows : List IndexRow)
    → ((p : Str) → contains (projects rows) p ≡ true → contains names p ≡ true)
    → All (λ r. contains names r.compose_project ≡ true) rows
each_named names [] h = tt
each_named names (r ∷ rows) h =
    (h r.compose_project (ground arith), each_named names rows (λ p k. h p (ground (arith, k))))

all_rows-map-group_of :
    (rows : List IndexRow) (names : List Str)
    → Permᴰ
        (all_rows (map (group_of (group_rows rows no_groups).groups) names))
        (collect rows names)
all_rows-map-group_of rows [] = Permᴰ.nil
all_rows-map-group_of rows (p ∷ names) =
    Permᴰ.trans
      (Permᴰ.append_right (all_rows (map (group_of (group_rows rows no_groups).groups) names))
        (group_of-perm rows p))
      (Permᴰ.append_left (of_project p rows) (all_rows-map-group_of rows names))

all_rows-display_groups :
    (rows : List IndexRow) → Permᴰ (all_rows (display_groups rows)) (project_rows rows)
unfolding display_groups groups_in_order
all_rows-display_groups rows =
    let names = (group_rows (project_rows rows) no_groups).names in
    Permᴰ.trans (all_rows-map-group_of (project_rows rows) (sort str_le names)) (
      collect-perm (sort str_le names) (project_rows rows)
        (sort-Nodup str_le names (distinct-group_rows (project_rows rows)))
        (each_named (sort str_le names) (project_rows rows)
          (λ p h. contains-sort str_le p names ∙ (names-group_rows (project_rows rows) p ∙ h))))

module _ (p : IndexRow → Bool) where
  filter-perm : (rows : List IndexRow) → Permᴰ (filter (λ r. not (p r)) rows ++ filter p rows) rows
  filter-perm [] = Permᴰ.nil
  filter-perm (r ∷ rows) = elim (Bool-cases (p r)) [
    | inl e ↦
        subst (λ l. Permᴰ l (r ∷ rows)) (ground (arith, e))
          (Permᴰ.trans (Permᴰ.middle r (filter (λ x. not (p x)) rows) (filter p rows))
            (Permᴰ.cons refl (filter-perm rows)))
    | inr e ↦
        subst (λ l. Permᴰ l (r ∷ rows)) (ground (arith, e)) (Permᴰ.cons refl (filter-perm rows))
  ]

  count_rows-append :
      (xs ys : List IndexRow) → count_rows p (xs ++ ys) ≡ count_rows p xs + count_rows p ys
  unfolding count_rows
  count_rows-append [] ys = omega arith
  count_rows-append (x ∷ xs) ys = omega (arith, count_rows-append xs ys)

  count_groups-eq : (gs : List DisplayGroup) → count_groups p gs ≡ count_rows p (all_rows gs)
  unfolding count_groups count_rows
  count_groups-eq [] = refl
  count_groups-eq (g ∷ gs) =
      omega (arith, count_groups-eq gs, count_rows-append g.rows (all_rows gs))

  count_rows-perm : {xs ys : List IndexRow} → Permᴰ xs ys → count_rows p xs ≡ count_rows p ys
  unfolding count_rows
  count_rows-perm Permᴰ.nil = refl
  count_rows-perm (Permᴰ.cons {a = a} {b = b} e q) = cc (count_rows-perm q)
  count_rows-perm (Permᴰ.swap {a = a} {b = b} {l = l} e f) = omega (
    arith,
    ap {B = ℕ} (λ x. (if p x then 1 else 0)) e,
    ap {B = ℕ} (λ x. (if p x then 1 else 0)) f,
  )
  count_rows-perm (Permᴰ.trans q r) = count_rows-perm q ∙ count_rows-perm r

-- The rows above the groups and those in the groups are all the rows, each once.
page-perm : (rows : List IndexRow) → Permᴰ (top_rows rows ++ all_rows (display_groups rows)) rows
unfolding top_rows
page-perm rows =
    Permᴰ.trans
      (Permᴰ.append_right (all_rows (display_groups rows))
        (sort-perm row_le (filter (λ r. not (in_project r)) rows)))
      (Permᴰ.trans
        (Permᴰ.append_left (filter (λ r. not (in_project r)) rows) (all_rows-display_groups rows))
        (filter-perm in_project rows))

total_count-eq :
    (p : IndexRow → Bool) (rows : List IndexRow)
    → total_count p (top_rows rows) (display_groups rows) ≡ count_rows p rows
unfolding total_count
total_count-eq p rows = omega (
  arith,
  count_groups-eq p (display_groups rows),
  count_rows-append p (top_rows rows) (all_rows (display_groups rows)),
  count_rows-perm p (page-perm rows),
)

module _ (format_time : ℕ → Str) (marshal : Dict Str Str → Option Str) (recode : Str → Option Str)
    (tld : Str) (standalone : Bool) (config_json : Str) (discovery_error : Str)
    (last_refresh : ℕ) where
  abbrev pub page : List ContainerInfo → IndexData
  page containers =
      index_data format_time marshal recode tld standalone containers config_json discovery_error
        last_refresh

  -- Whatever the containers are, the rows that the page shows above and in its groups are the rows of
  -- the containers, each container once.
  pub page-IsComplete :
      (containers : List ContainerInfo)
      → Permᴰ
          ((page containers).display_rows ++ all_rows (page containers).groups)
          (map (index_row format_time marshal tld standalone) containers)
  unfolding index_data
  page-IsComplete containers =
      page-perm (map (index_row format_time marshal tld standalone) containers)

  count_up :
      (containers : List ContainerInfo)
      → count_rows
          (λ r. r.is_running)
          (map (index_row format_time marshal tld standalone) containers)
        ≡ length (filter (λ c. c.is_running) containers)
  unfolding count_rows index_row
  count_up [] = refl
  count_up (c ∷ containers) = ground (arith, count_up containers)

  count_all :
      (containers : List ContainerInfo)
      → count_rows
            (λ r. r.is_running)
            (map (index_row format_time marshal tld standalone) containers)
          + count_rows is_stopped (map (index_row format_time marshal tld standalone) containers)
        ≡ length containers
  unfolding count_rows index_row is_stopped
  count_all [] = refl
  count_all (c ∷ containers) = ground (arith, count_all containers)

  -- The page counts as running the containers that run, and as stopped all others.
  pub page_counts :
      (containers : List ContainerInfo)
      → ((page containers).running_count ≡ length (filter (λ c. c.is_running) containers))
        × ((page containers).running_count + (page containers).stopped_count ≡ length containers)
  unfolding index_data
  page_counts containers =
      let rows = map (index_row format_time marshal tld standalone) containers in
      let up = total_count-eq (λ r. r.is_running) rows in
      let down = total_count-eq is_stopped rows in
      (up ∙ count_up containers, omega (arith, up, down, count_all containers))
