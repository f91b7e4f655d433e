-- ===== src/Generator/Icons/Laws.antt =====
-- generator/icons.go: what an icon does not depend on, and what it may be.
use mathlib.Core.List.{map-append}
use caddy_dev_local.Base.{
  ℕ, ◌≡◌, refl, sym, ap, ◌∙◌, true, false, Option, none, some, List, [], ◌∷◌, ◌++◌, ◌==◌, list_eq,
  nat_eq, ◌⊎◌, inl, inr, contains, arith, Bool-cases, map,
}
use caddy_dev_local.Base.Dict.{Dict, lookup}
use caddy_dev_local.Base.Distinct.{contains-append}
use caddy_dev_local.Str.{Str, trim_space, to_lower, lower}
use caddy_dev_local.Docker.{get_label}
use caddy_dev_local.Generator.Icons.{
  image_repository, without_tag, normalize_image_name, icon_for_container, icon_by_name,
  valid_icon_url, first_icon, label_icon_url, or_else, if_empty, known_icon, icon_labels,
}
use caddy_dev_local.Generator.Icons.Tables.{
  simple_icons_url, known_image_icons, custom_image_icons, repo_image_icons,
}
use caddy_dev_local.Str.Cuts.{
  before_last, after_last, after_last_order, before_first_lacking, before_first-append,
  after_last-append, before_last_lacking, before_last-append, after_last-append_lacking,
  contains-after_last,
}

-- A name without a colon behind the last slash has no tag.
without_tag_bare : (s : Str) → contains (after_last b'/' s) b':' ≡ false → without_tag s ≡ s
unfolding without_tag
without_tag_bare s h = elim (Bool-cases (contains s b':')) [
  | inl has ↦ rw (after_last_order b'/' b':' s (omega arith) h has) refl
  | inr lacks ↦ rw (before_last_lacking b':' s lacks) (ground arith)
]

without_tag-append :
    (s t : Str)
    → contains t b':' ≡ false
    → contains t b'/' ≡ false
    → without_tag (s ++ (b':' ∷ t)) ≡ s
unfolding without_tag
without_tag-append s t h k =
    rw (after_last-append b':' s t h, before_last-append b':' s t h, k) refl

-- A separator is the lower case of itself only.
abbrev Survives : ℕ → Type 0
Survives sep = (c : ℕ) → (lower c == sep) ≡ (c == sep)

at_Survives : Survives b'@'
unfolding lower
at_Survives c = ground arith

colon_Survives : Survives b':'
unfolding lower
colon_Survives c = ground arith

slash_Survives : Survives b'/'
unfolding lower
slash_Survives c = ground arith

contains-to_lower :
    (sep : ℕ) → Survives sep → (s : Str) → contains (to_lower s) sep ≡ contains s sep
unfolding to_lower
contains-to_lower sep h [] = refl
contains-to_lower sep h (c ∷ s) = ground (arith, h c, contains-to_lower sep h s)

after_last-to_lower :
    (sep : ℕ) → Survives sep → (s : Str) → after_last sep (to_lower s) ≡ to_lower (after_last sep s)
unfolding after_last to_lower
after_last-to_lower sep h [] = refl
after_last-to_lower sep h (c ∷ s) =
    ground (arith, h c, after_last-to_lower sep h s, contains-to_lower sep h s)

-- The text of an image reference: not trimmed by `strings.TrimSpace`.
abbrev IsTrimmed : Str → Type 0
IsTrimmed s = trim_space s ≡ s

module _ (repo : Str) (trimmed : IsTrimmed repo) (bare : contains repo b'@' ≡ false) where
  lower_bare : contains (to_lower repo) b'@' ≡ false
  lower_bare = contains-to_lower b'@' at_Survives repo ∙ bare

  repository_lem : image_repository repo ≡ without_tag (to_lower repo)
  unfolding image_repository
  repository_lem = rw (trimmed, before_first_lacking b'@' (to_lower repo) lower_bare) refl

  name_lem : normalize_image_name repo ≡ to_lower (before_last b':' (after_last b'/' repo))
  unfolding normalize_image_name
  name_lem =
      rw
        (
          trimmed,
          before_first_lacking b'@' (after_last b'/' repo)
              (contains-after_last b'/' repo b'@' bare),
        )
        refl

  module _ (digest : Str) (trimmed' : IsTrimmed (repo ++ (b'@' ∷ digest))) where
    repository_pinned : image_repository (repo ++ (b'@' ∷ digest)) ≡ image_repository repo
    unfolding image_repository to_lower lower
    repository_pinned =
        rw
          (
            trimmed',
            trimmed,
            map-append lower repo (b'@' ∷ digest),
            before_first-append b'@' (map lower repo) (map lower digest) lower_bare,
            before_first_lacking b'@' (map lower repo) lower_bare,
          )
          refl

    name_pinned :
        contains digest b'/' ≡ false
        → normalize_image_name (repo ++ (b'@' ∷ digest)) ≡ normalize_image_name repo
    unfolding normalize_image_name
    name_pinned h =
        rw
          (
            trimmed',
            trimmed,
            after_last-append_lacking b'/' repo (b'@' ∷ digest) (ground arith),
            before_first-append b'@' (after_last b'/' repo) digest
                (contains-after_last b'/' repo b'@' bare),
            before_first_lacking b'@' (after_last b'/' repo)
                (contains-after_last b'/' repo b'@' bare),
          )
          refl

module _ (repo tag : Str) (trimmed : IsTrimmed repo) (trimmed' : IsTrimmed (repo ++ (b':' ∷ tag)))
    (bare : contains repo b'@' ≡ false) (untagged : contains (after_last b'/' repo) b':' ≡ false)
    (no_at : contains tag b'@' ≡ false) (no_slash : contains tag b'/' ≡ false)
    (no_colon : contains tag b':' ≡ false) where
  tagged_bare : contains (repo ++ (b':' ∷ tag)) b'@' ≡ false
  tagged_bare = ground (arith, contains-append b'@' repo (b':' ∷ tag))

  repository_untagged : image_repository repo ≡ to_lower repo
  repository_untagged =
      repository_lem repo trimmed bare
      ∙ without_tag_bare (to_lower repo) (
          ap (λ s. contains s b':') (after_last-to_lower b'/' slash_Survives repo)
          ∙ (contains-to_lower b':' colon_Survives (after_last b'/' repo) ∙ untagged))

  lower_tagged : to_lower (repo ++ (b':' ∷ tag)) ≡ to_lower repo ++ (b':' ∷ to_lower tag)
  unfolding to_lower lower
  lower_tagged = map-append lower repo (b':' ∷ tag)

  repository_tagged : image_repository (repo ++ (b':' ∷ tag)) ≡ image_repository repo
  repository_tagged =
      repository_lem (repo ++ (b':' ∷ tag)) trimmed' tagged_bare
      ∙ (ap without_tag lower_tagged
          ∙ (without_tag-append (to_lower repo) (to_lower tag)
                (contains-to_lower b':' colon_Survives tag ∙ no_colon)
                (contains-to_lower b'/' slash_Survives tag ∙ no_slash)
              ∙ sym repository_untagged))

  name_tagged : normalize_image_name (repo ++ (b':' ∷ tag)) ≡ normalize_image_name repo
  name_tagged =
      rw
        (
          name_lem (repo ++ (b':' ∷ tag)) trimmed' tagged_bare,
          name_lem repo trimmed bare,
          after_last-append_lacking b'/' repo (b':' ∷ tag) (ground arith),
          before_last-append b':' (after_last b'/' repo) tag no_colon,
          before_last_lacking b':' (after_last b'/' repo) untagged,
        )
        refl

icon_of_names :
    (image image' : Str) (labels : Option (Dict Str Str))
    → image_repository image ≡ image_repository image'
    → normalize_image_name image ≡ normalize_image_name image'
    → icon_for_container image labels ≡ icon_for_container image' labels
unfolding icon_for_container
icon_of_names image image' labels h k = rw (h, k) refl

-- Neither a tag nor a digest changes the icon: for a repository that holds no `@`, and no colon behind
-- its last slash, a tag without slash, colon and `@`, and a digest without a slash, the images
-- `repo:tag` and `repo:tag@digest` have the icon of `repo`, whatever the labels, if none of the three
-- texts has white space at an end.
pub icon_for_container_tagged :
    (repo tag digest : Str) (labels : Option (Dict Str Str))
    → IsTrimmed repo
    → IsTrimmed (repo ++ (b':' ∷ tag))
    → IsTrimmed ((repo ++ (b':' ∷ tag)) ++ (b'@' ∷ digest))
    → contains repo b'@' ≡ false
    → contains (after_last b'/' repo) b':' ≡ false
    → contains tag b'@' ≡ false
    → contains tag b'/' ≡ false
    → contains tag b':' ≡ false
    → contains digest b'/' ≡ false
    → (icon_for_container (repo ++ (b':' ∷ tag)) labels ≡ icon_for_container repo labels)
      × (icon_for_container ((repo ++ (b':' ∷ tag)) ++ (b'@' ∷ digest)) labels
          ≡ icon_for_container repo labels)
icon_for_container_tagged repo tag digest labels t t' t'' at untagged a b c d =
    let tagged =
      icon_of_names (repo ++ (b':' ∷ tag)) repo labels
        (repository_tagged repo tag t t' at untagged a b c)
        (name_tagged repo tag t t' at untagged a b c) in
    let bare = tagged_bare repo tag t t' at untagged a b c in
    let pinned =
      icon_of_names ((repo ++ (b':' ∷ tag)) ++ (b'@' ∷ digest)) (repo ++ (b':' ∷ tag)) labels
        (repository_pinned (repo ++ (b':' ∷ tag)) t' bare digest t'')
        (name_pinned (repo ++ (b':' ∷ tag)) t' bare digest t'' d) in
    (tagged, pinned ∙ tagged)

-- The icon is no icon, or a URL.
abbrev pub IsIcon : Str → Type 0
IsIcon icon = (icon ≡ []) ⊎ (valid_icon_url icon ≡ true)

first_icon-IsIcon : (labels : Option (Dict Str Str)) (ks : List Str) → IsIcon (first_icon labels ks)
unfolding first_icon
first_icon-IsIcon labels [] = inl refl
first_icon-IsIcon labels (k ∷ ks) =
    elim (Bool-cases (valid_icon_url (trim_space (get_label labels k)))) [
      | inl e ↦ rw e (inr e)
      | inr e ↦ rw e (first_icon-IsIcon labels ks)
    ]

abbrev ValidUrls : Dict Str Str → Type 0
ValidUrls [] = Unit
ValidUrls ((k, v) ∷ d) = (valid_icon_url v ≡ true) × ValidUrls d

lookup-IsIcon :
    (k : Str) (d : Dict Str Str) (rest : Str)
    → ValidUrls d
    → IsIcon rest
    → IsIcon (or_else (lookup k d) rest)
unfolding lookup or_else
lookup-IsIcon k [] rest h r = r
lookup-IsIcon k ((j, v) ∷ d) rest h r = elim (Bool-cases (k == j)) [
  | inl e ↦ rw e (inr h.0)
  | inr e ↦ rw e (lookup-IsIcon k d rest h.1 r)
]

valid_icon_url-simple : (s : Str) → valid_icon_url (simple_icons_url ++ s) ≡ true
unfolding valid_icon_url
valid_icon_url-simple s = refl

custom-ValidUrls : ValidUrls custom_image_icons
unfolding valid_icon_url
custom-ValidUrls = (refl, tt)

repo-ValidUrls : ValidUrls repo_image_icons
unfolding valid_icon_url
repo-ValidUrls = (refl, tt)

known_icon-IsIcon : (o : Option Str) → IsIcon (known_icon o)
unfolding known_icon
known_icon-IsIcon none = inl refl
known_icon-IsIcon (some slug) = inr (valid_icon_url-simple slug)

if_empty-IsIcon : (s rest : Str) → IsIcon s → IsIcon rest → IsIcon (if_empty s rest)
unfolding if_empty
if_empty-IsIcon [] rest h k = k
if_empty-IsIcon (c ∷ s) rest h k = h

-- Whatever the image and the labels are, the icon is the empty text or begins with `http://` or
-- `https://`.
pub icon_for_container-IsIcon :
    (image : Str) (labels : Option (Dict Str Str)) → IsIcon (icon_for_container image labels)
unfolding icon_for_container label_icon_url icon_by_name
icon_for_container-IsIcon image labels =
    if_empty-IsIcon (first_icon labels icon_labels) _ (first_icon-IsIcon labels icon_labels) (
      lookup-IsIcon (image_repository image) repo_image_icons _ repo-ValidUrls (
        lookup-IsIcon (normalize_image_name image) custom_image_icons _ custom-ValidUrls
          (known_icon-IsIcon (lookup (normalize_image_name image) known_image_icons))))
