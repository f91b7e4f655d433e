-- ===== src/Generator/Select.antt =====
-- `selectPortsLocked`, `probeTarget` and `RefreshAndSelect` of generator/generator.go, and
-- generator/probe.go. What answers on a port is the argument `responds`.
pub mod Laws
pub mod Safety
mod Tests
use caddy_dev_local.Base.{
  ℕ, Bool, true, false, Option, none, some, List, [], ◌∷◌, ◌++◌, ◌==◌, nat_eq, nat_dec, not,
  if◌then◌else◌, contains, map, ◌>>=◌,
}
use caddy_dev_local.Base.Dict.{Dict}
use caddy_dev_local.Str.{Str}
use caddy_dev_local.Config.{Config}
use caddy_dev_local.Docker.{Summary, get_label}
use caddy_dev_local.Generator.{ContainerInfo, Containers, not_empty, effective_port, host_for}
use caddy_dev_local.Generator.Custom.{domains_label}
use caddy_dev_local.Generator.Refresh.{
  Refreshed, panicked, list_error, refreshed, refresh_locked, refreshed_or_panicked,
}

abbrev pub common_http_ports : List ℕ
common_http_ports = 80 ∷ 8080 ∷ 443 ∷ 8443 ∷ []

-- The members of the second list that the first contains.
unfoldable pub kept_of : List ℕ → List ℕ → List ℕ
kept_of ports [] = []
kept_of ports (p ∷ ps) = let rest = kept_of ports ps in if contains ports p then p ∷ rest else rest

unfoldable pub left_of : List ℕ → List ℕ → List ℕ
left_of ports [] = []
left_of ports (p ∷ ps) = let rest = left_of ports ps in if contains ports p then rest else p ∷ rest

unfoldable pub prefer_ports : List ℕ → List ℕ
prefer_ports [] = []
prefer_ports (p ∷ []) = p ∷ []
prefer_ports (p ∷ q ∷ ps) =
    kept_of (p ∷ q ∷ ps) common_http_ports ++ left_of common_http_ports (p ∷ q ∷ ps)

-- The first port of the list at which a request gets a response with a status.
unfoldable pub first_responding : (ℕ → Bool) → List ℕ → Option ℕ
first_responding responds [] = none
first_responding responds (p ∷ ps) =
    let rest = first_responding responds ps in if responds p then some p else rest

-- `ProbeHTTPPort`; both of its errors are `none`.
unfoldable pub probe_http_port : (Str → ℕ → Bool) → Str → List ℕ → Option ℕ
probe_http_port responds host ports = first_responding (responds host) (prefer_ports ports)

unfoldable pub probe_target : Config → ContainerInfo → Str × List ℕ
probe_target cfg info = (host_for cfg info, map (effective_port info) info.ports)

unfoldable pub set_selected : Option ℕ → ContainerInfo → ContainerInfo
set_selected none info = info
set_selected (some port) info = record info { selected_port = port }

module _ (cfg : Config) (probe : Str → List ℕ → Option ℕ) where
  unfoldable pub select_one : ContainerInfo → ContainerInfo
  select_one info =
      if not info.is_running
      then info
      else if not_empty (get_label info.labels domains_label)
      then info
      else if not (not_empty (probe_target cfg info).1)
      then info
      else set_selected (probe (probe_target cfg info).0 (probe_target cfg info).1) info

  unfoldable pub select_ports_locked : Containers → Containers
  select_ports_locked [] = []
  select_ports_locked ((id, info) ∷ m) = (id, select_one info) ∷ select_ports_locked m

  unfoldable pub select_after : Refreshed → Refreshed
  select_after panicked = panicked
  select_after (list_error m) = list_error m
  select_after (refreshed m) = refreshed (select_ports_locked m)

  -- `RefreshAndSelect`, from what the Docker API answers
  unfoldable pub refresh_and_select : ℕ → Str → Option (List Summary) → Containers → Refreshed
  refresh_and_select now hostname none m = list_error m
  refresh_and_select now hostname (some containers) m =
      select_after (refreshed_or_panicked (refresh_locked cfg now hostname containers m))
