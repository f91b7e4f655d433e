-- ===== src/Generator/Icons/Tests.antt =====
-- generator/icons.go on examples.
use caddy_dev_local.Base.{◌≡◌, refl, none, some, [], ◌∷◌, nat_eq, list_eq, nat_dec}
use caddy_dev_local.Str.{codes, trim_space}
use caddy_dev_local.Generator.Icons.{icon_for_container, image_repository, normalize_image_name}
use caddy_dev_local.Str.Cuts.{after_last}
use caddy_dev_local.Generator.Icons.Laws.{icon_for_container_tagged}

icon_of_postgres :
    icon_for_container (codes "docker.io/library/Postgres:16") none
    ≡ codes "https://cdn.simpleicons.org/postgresql"
unfolding icon_for_container
icon_of_postgres = refl

icon_of_mssql :
    icon_for_container (codes "mcr.microsoft.com/mssql/server:2022") none
    ≡ codes "https://upload.wikimedia.org/wikipedia/commons/4/41/Microsoft_SQL_Server_2025_icon.svg"
unfolding icon_for_container
icon_of_mssql = refl

-- A label that is no URL is passed over.
icon_of_label :
    icon_for_container (codes "web") (
      some (
        (codes "org.opencontainers.image.logo", codes "javascript:x")
        ∷ (codes "com.docker.extension.icon", codes " http://i ")
        ∷ []))
    ≡ codes "http://i"
unfolding icon_for_container
icon_of_label = refl

-- The port of a registry is no tag.
repository_with_port : image_repository (codes "host:5000/a") ≡ codes "host:5000/a"
unfolding image_repository
repository_with_port = refl

name_with_port : normalize_image_name (codes "host:5000/A") ≡ codes "a"
unfolding normalize_image_name
name_with_port = refl

icon_for_container_tagged_example :
    (icon_for_container (codes "r:5/nginx:1") none ≡ icon_for_container (codes "r:5/nginx") none)
    × (icon_for_container (codes "r:5/nginx:1@sha256:ab") none
        ≡ icon_for_container (codes "r:5/nginx") none)
unfolding trim_space nat_dec after_last
icon_for_container_tagged_example =
    icon_for_container_tagged (codes "r:5/nginx") (codes "1") (codes "sha256:ab") none refl refl
      refl refl refl refl refl refl refl
