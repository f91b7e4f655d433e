-- ===== src/Generator/Icons/Tables.antt =====
-- The tables of generator/icons.go: image names and repositories, and the icons for them.
use caddy_dev_local.Base.{[], ◌∷◌}
use caddy_dev_local.Base.Dict.{Dict}
use caddy_dev_local.Str.{Str, codes}

-- `simpleIconsURL`
abbrev pub simple_icons_url : Str
simple_icons_url = codes "https://cdn.simpleicons.org/"

-- `knownImageIcons`
abbrev pub known_image_icons : Dict Str Str
known_image_icons =
    (codes "nginx", codes "nginx")
    ∷ (codes "httpd", codes "apache")
    ∷ (codes "apache", codes "apache")
    ∷ (codes "caddy", codes "caddy")
    ∷ (codes "traefik", codes "traefikproxy")
    ∷ (codes "nginx-proxy-manager", codes "nginxproxymanager")
    ∷ (codes "postgres", codes "postgresql")
    ∷ (codes "postgresql", codes "postgresql")
    ∷ (codes "mysql", codes "mysql")
    ∷ (codes "mariadb", codes "mariadb")
    ∷ (codes "redis", codes "redis")
    ∷ (codes "mongo", codes "mongodb")
    ∷ (codes "mongodb", codes "mongodb")
    ∷ (codes "node", codes "nodedotjs")
    ∷ (codes "nodejs", codes "nodedotjs")
    ∷ (codes "python", codes "python")
    ∷ (codes "go", codes "go")
    ∷ (codes "golang", codes "go")
    ∷ (codes "rust", codes "rust")
    ∷ (codes "php", codes "php")
    ∷ (codes "ruby", codes "ruby")
    ∷ (codes "openjdk", codes "openjdk")
    ∷ (codes "java", codes "openjdk")
    ∷ (codes "eclipse-temurin", codes "openjdk")
    ∷ (codes "dotnet", codes "dotnet")
    ∷ (codes "aspnet", codes "dotnet")
    ∷ (codes "elasticsearch", codes "elasticsearch")
    ∷ (codes "kafka", codes "apachekafka")
    ∷ (codes "rabbitmq", codes "rabbitmq")
    ∷ (codes "grafana", codes "grafana")
    ∷ (codes "prometheus", codes "prometheus")
    ∷ (codes "keycloak", codes "keycloak")
    ∷ (codes "vault", codes "vault")
    ∷ (codes "consul", codes "consul")
    ∷ (codes "minio", codes "minio")
    ∷ (codes "clickhouse", codes "clickhouse")
    ∷ (codes "clickhouse-server", codes "clickhouse")
    ∷ (codes "cockroachdb", codes "cockroachlabs")
    ∷ (codes "docker", codes "docker")
    ∷ (codes "git", codes "git")
    ∷ (codes "github", codes "github")
    ∷ (codes "gitlab", codes "gitlab")
    ∷ (codes "gitea", codes "gitea")
    ∷ (codes "forgejo", codes "forgejo")
    ∷ (codes "wordpress", codes "wordpress")
    ∷ (codes "ghost", codes "ghost")
    ∷ (codes "nextcloud", codes "nextcloud")
    ∷ (codes "n8n", codes "n8n")
    ∷ (codes "jenkins", codes "jenkins")
    ∷ (codes "jupyter", codes "jupyter")
    ∷ (codes "airflow", codes "apacheairflow")
    ∷ (codes "influxdb", codes "influxdb")
    ∷ (codes "portainer", codes "portainer")
    ∷ (codes "jellyfin", codes "jellyfin")
    ∷ (codes "plex", codes "plex")
    ∷ (codes "homeassistant", codes "homeassistant")
    ∷ (codes "pihole", codes "pihole")
    ∷ (codes "watchtower", codes "watchtower")
    ∷ (codes "adguard", codes "adguard")
    ∷ (codes "adguardhome", codes "adguard")
    ∷ (codes "ubuntu", codes "ubuntu")
    ∷ (codes "debian", codes "debian")
    ∷ (codes "fedora", codes "fedora")
    ∷ (codes "alpine", codes "alpinelinux")
    ∷ []

-- `customImageIcons`
abbrev pub custom_image_icons : Dict Str Str
custom_image_icons =
    (
      codes "aspire-dashboard",
      codes "https://microsoft.github.io/aspire-brand/logo/aspire-icon-256.svg",
    )
    ∷ []

-- `repoImageIcons`
abbrev pub repo_image_icons : Dict Str Str
repo_image_icons =
    (
      codes "mcr.microsoft.com/mssql/server",
      codes
          "https://upload.wikimedia.org/wikipedia/commons/4/41/Microsoft_SQL_Server_2025_icon.svg",
    )
    ∷ []
