-- ===== src/Generator/Icons.antt =====
-- generator/icons.go: the icon of a container, from its labels or the name of its image.
pub mod Tables
pub mod Laws
mod Tests
use caddy_dev_local.Base.{
  ℕ, Bool, true, false, Option, none, some, List, [], ◌∷◌, ◌++◌, ◌==◌, list_eq, nat_eq, list_dec,
  nat_dec, ◌||◌, if◌then◌else◌, contains,
}
use caddy_dev_local.Base.Dict.{Dict, lookup}
use caddy_dev_local.Str.{Str, codes, trim_space, to_lower, has_prefix}
use caddy_dev_local.Docker.{get_label}
use caddy_dev_local.Generator.Icons.Tables.{
  simple_icons_url, known_image_icons, custom_image_icons, repo_image_icons,
}
use caddy_dev_local.Str.Cuts.{before_first, before_last, after_last}

-- `if i := strings.LastIndex(s, ":"); i >= 0 && !strings.Contains(s[i+1:], "/") { s = s[:i] }`
unfoldable pub without_tag : Str → Str
unfolding after_last before_last nat_dec
without_tag s = if contains (after_last b':' s) b'/' then s else before_last b':' s

unfoldable pub image_repository : Str → Str
unfolding trim_space to_lower before_first without_tag
image_repository image = without_tag (before_first b'@' (to_lower (trim_space image)))

unfoldable pub normalize_image_name : Str → Str
unfolding trim_space to_lower after_last before_first before_last
normalize_image_name image =
    to_lower (before_last b':' (before_first b'@' (after_last b'/' (trim_space image))))

unfoldable pub valid_icon_url : Str → Bool
unfolding has_prefix
valid_icon_url s = has_prefix s (codes "http://") || has_prefix s (codes "https://")

abbrev pub icon_labels : List Str
icon_labels = codes "org.opencontainers.image.logo" ∷ codes "com.docker.extension.icon" ∷ []

-- The loop of `labelIconURL`: the first of the labels that holds a URL.
unfoldable pub first_icon : Option (Dict Str Str) → List Str → Str
unfolding valid_icon_url trim_space get_label
first_icon labels [] = []
first_icon labels (key ∷ keys) =
    let v = trim_space (get_label labels key) in
    let rest = first_icon labels keys in if valid_icon_url v then v else rest

unfoldable pub label_icon_url : Option (Dict Str Str) → Str
unfolding first_icon
label_icon_url labels = first_icon labels icon_labels

unfoldable pub known_icon : Option Str → Str
known_icon none = []
known_icon (some slug) = simple_icons_url ++ slug

-- `if url, ok := m[key]; ok { return url }`, and what follows it
unfoldable pub or_else : Option Str → Str → Str
or_else none rest = rest
or_else (some url) rest = url

-- `if url := labelIconURL(labels); url != ""`, and what follows it
unfoldable pub if_empty : Str → Str → Str
if_empty [] rest = rest
if_empty (c ∷ url) rest = c ∷ url

unfoldable pub icon_by_name : Str → Str
unfolding known_icon or_else lookup list_dec nat_dec
icon_by_name name =
    or_else (lookup name custom_image_icons) (known_icon (lookup name known_image_icons))

unfoldable pub icon_for_container : Str → Option (Dict Str Str) → Str
unfolding label_icon_url image_repository normalize_image_name icon_by_name or_else if_empty lookup
    list_dec nat_dec
icon_for_container image labels = if_empty (label_icon_url labels) (
    or_else (lookup (image_repository image) repo_image_icons)
      (icon_by_name (normalize_image_name image)))
