-- ===== src/Generator/Index/Laws.antt =====
-- The order within a list of rows of the index page, and the groups that the loops of
-- generator/index.go collect.
use caddy_dev_local.Base.{
  ◌≡◌, refl, sym, ap, ◌∙◌, Bool, true, false, Option, none, some, List, [], ◌∷◌, ◌++◌, append_assoc,
  append-nil, ◌==◌, list_eq, nat_eq, ◌||◌, contains, arith, map, filter,
}
use caddy_dev_local.Base.Dict.{lookup, lookup-insert}
use caddy_dev_local.Base.Distinct.{Nodup, contains-append, snoc-Nodup, is_some}
use caddy_dev_local.Base.Sort.{sort, insert_sorted}
use caddy_dev_local.Str.{Str}
use caddy_dev_local.Generator.Index.Rows.{IndexRow}
use caddy_dev_local.Generator.Index.Groups.{
  Grouped, row_le, is_stopped, add_to_group, group_rows, or_no_rows, no_groups,
}

abbrev pub is_up : IndexRow → Bool
is_up r = r.is_running

insert_running :
    (r : IndexRow) (xs ys : List IndexRow)
    → r.is_running ≡ true
    → insert_sorted row_le r (xs ++ ys) ≡ r ∷ xs ++ ys
unfolding insert_sorted row_le
insert_running r [] [] h = refl
insert_running r [] (y ∷ ys) h = ground arith
insert_running r (x ∷ xs) ys h = ground arith

insert_stopped :
    (r : IndexRow) (xs ys : List IndexRow)
    → r.is_running ≡ false
    → insert_sorted row_le r (filter is_up xs ++ filter is_stopped ys)
      ≡ filter is_up xs ++ r ∷ filter is_stopped ys
unfolding insert_sorted row_le is_stopped
insert_stopped r [] [] h = refl
insert_stopped r [] (y ∷ ys) h = ground (arith, insert_stopped r [] ys h)
insert_stopped r (x ∷ xs) ys h = ground (arith, insert_stopped r xs ys h)

-- The sort puts the running rows first and keeps the order among them and among the others.
pub sort-rows :
    (rows : List IndexRow) → sort row_le rows ≡ filter is_up rows ++ filter is_stopped rows
unfolding sort is_stopped
sort-rows [] = refl
sort-rows (r ∷ rows) =
    ap (insert_sorted row_le r) (sort-rows rows)
    ∙ ground (
      arith,
      insert_running r (filter is_up rows) (filter is_stopped rows),
      insert_stopped r rows rows,
    )

-- The rows of one project, in the order of the list.
abbrev pub of_project : Str → List IndexRow → List IndexRow
of_project p = filter (λ r. r.compose_project == p)

abbrev pub projects : List IndexRow → List Str
projects = map (λ r. r.compose_project)

stored-add_to_group :
    (p : Str) (o : Option (List IndexRow)) (r : IndexRow) (g : Grouped)
    → lookup r.compose_project g.groups ≡ o
    → or_no_rows (lookup p (add_to_group o r g).groups)
      ≡ or_no_rows (lookup p g.groups) ++ of_project p (r ∷ [])
unfolding add_to_group or_no_rows
stored-add_to_group p none r g e = ground (
  arith,
  lookup-insert p r.compose_project (r ∷ []) g.groups,
  append-nil (or_no_rows (lookup p g.groups)),
)
stored-add_to_group p (some rows) r g e = ground (
  arith,
  lookup-insert p r.compose_project (rows ++ r ∷ []) g.groups,
  append-nil (or_no_rows (lookup p g.groups)),
)

-- Under each project its rows are stored.
pub stored-group_rows :
    (p : Str) (rows : List IndexRow) (g : Grouped)
    → or_no_rows (lookup p (group_rows rows g).groups)
      ≡ or_no_rows (lookup p g.groups) ++ of_project p rows
unfolding group_rows
stored-group_rows p [] g = sym (append-nil _)
stored-group_rows p (r ∷ rows) g =
    stored-group_rows p rows (add_to_group (lookup r.compose_project g.groups) r g)
    ∙ (ap (λ l. l ++ of_project p rows)
          (stored-add_to_group p (lookup r.compose_project g.groups) r g refl)
        ∙ (append_assoc (or_no_rows (lookup p g.groups)) (of_project p (r ∷ [])) (of_project p rows)
            ∙ ground arith))

-- The names are the keys of the map, each once.
pub record IsGrouped (g : Grouped) : Type 0 where
  pub named : (p : Str) → contains g.names p ≡ is_some (lookup p g.groups)
  pub distinct : Nodup g.names

named-add_to_group :
    (o : Option (List IndexRow)) (r : IndexRow) (g : Grouped)
    → lookup r.compose_project g.groups ≡ o
    → IsGrouped g
    → (p : Str)
    → contains (add_to_group o r g).names p ≡ is_some (lookup p (add_to_group o r g).groups)
unfolding add_to_group
named-add_to_group none r g e h p = ground (
  arith,
  h.named p,
  lookup-insert p r.compose_project (r ∷ []) g.groups,
  contains-append p g.names (r.compose_project ∷ []),
)
named-add_to_group (some rows) r g e h p =
    ground (arith, h.named p, lookup-insert p r.compose_project (rows ++ r ∷ []) g.groups)

distinct-add_to_group :
    (o : Option (List IndexRow)) (r : IndexRow) (g : Grouped)
    → lookup r.compose_project g.groups ≡ o
    → IsGrouped g
    → Nodup (add_to_group o r g).names
unfolding add_to_group
distinct-add_to_group none r g e h =
    snoc-Nodup g.names r.compose_project (h.named r.compose_project ∙ ap is_some e) h.distinct
distinct-add_to_group (some rows) r g e h = h.distinct

step-IsGrouped :
    (r : IndexRow) (g : Grouped)
    → IsGrouped g
    → IsGrouped (add_to_group (lookup r.compose_project g.groups) r g)
step-IsGrouped r g h = record {
  named = named-add_to_group (lookup r.compose_project g.groups) r g refl h;
  distinct = distinct-add_to_group (lookup r.compose_project g.groups) r g refl h;
}

group_rows-IsGrouped :
    (rows : List IndexRow) (g : Grouped) → IsGrouped g → IsGrouped (group_rows rows g)
unfolding group_rows
group_rows-IsGrouped [] g h = h
group_rows-IsGrouped (r ∷ rows) g h =
    group_rows-IsGrouped rows (add_to_group (lookup r.compose_project g.groups) r g)
      (step-IsGrouped r g h)

no_groups-IsGrouped : IsGrouped no_groups
unfolding lookup
no_groups-IsGrouped = record { named = λ p. refl; distinct = tt }

pub distinct-group_rows : (rows : List IndexRow) → Nodup (group_rows rows no_groups).names
distinct-group_rows rows = (group_rows-IsGrouped rows no_groups no_groups-IsGrouped).distinct

names-add_to_group :
    (o : Option (List IndexRow)) (r : IndexRow) (g : Grouped) (p : Str)
    → lookup r.compose_project g.groups ≡ o
    → IsGrouped g
    → contains (add_to_group o r g).names p ≡ (p == r.compose_project || contains g.names p)
unfolding add_to_group
names-add_to_group none r g p e h =
    ground (arith, contains-append p g.names (r.compose_project ∷ []))
names-add_to_group (some rows) r g p e h = ground (arith, h.named r.compose_project, e)

names-group_rows_go :
    (rows : List IndexRow) (g : Grouped) (p : Str)
    → IsGrouped g
    → contains (group_rows rows g).names p ≡ (contains (projects rows) p || contains g.names p)
unfolding group_rows
names-group_rows_go [] g p h = refl
names-group_rows_go (r ∷ rows) g p h = ground (
  arith,
  names-group_rows_go rows (add_to_group (lookup r.compose_project g.groups) r g) p
      (step-IsGrouped r g h),
  names-add_to_group (lookup r.compose_project g.groups) r g p refl h,
)

-- The names are the projects of the rows.
pub names-group_rows :
    (rows : List IndexRow) (p : Str)
    → contains (group_rows rows no_groups).names p ≡ contains (projects rows) p
names-group_rows rows p = ground (arith, names-group_rows_go rows no_groups p no_groups-IsGrouped)
