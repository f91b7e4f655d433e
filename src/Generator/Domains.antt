-- ===== src/Generator/Domains.antt =====
-- `DomainTargets`, `Domains` and `Containers` of generator/generator.go: the domains that are proxied
-- and the domains that the hosts file lists.
pub mod Targets
pub mod Filled
pub mod Names
pub mod Listing
mod Tests
use caddy_dev_local.Base.{
  ℕ, Bool, true, false, Option, none, some, List, [], ◌∷◌, ◌++◌, ◌==◌, list_eq, nat_eq, list_dec,
  nat_dec, not, if◌then◌else◌, contains,
}
use caddy_dev_local.Base.Dict.{Dict, lookup, insert, values}
use caddy_dev_local.Base.Sort.{sort}
use caddy_dev_local.Str.{Str, str_le}
use caddy_dev_local.Config.{Config}
use caddy_dev_local.Generator.{
  CustomDomain, ContainerInfo, Containers, effective_port, has_reachable_port, host_for,
  domain_for_container, domain_for_container_localhost, host_port,
}

abbrev pub Targets : Type 0
Targets = Dict Str (List Str)

unfoldable pub or_empty : Option (List Str) → List Str
or_empty none = []
or_empty (some ts) = ts

-- `merged[domain] = append(merged[domain], target)`
unfoldable pub add_target : Str → Str → Targets → Targets
add_target domain target merged =
    insert domain (or_empty (lookup domain merged) ++ target ∷ []) merged

module _ (cfg : Config) where
  unfoldable pub add_custom : ContainerInfo → List CustomDomain → Targets → Targets
  add_custom info [] merged = merged
  add_custom info (cd ∷ cds) merged =
      add_custom info cds
        (add_target cd.domain (host_port (host_for cfg info) (effective_port info cd.port)) merged)

  -- The loop body from the test of the selected port on.
  unfoldable pub add_selected : ContainerInfo → Targets → Targets
  add_selected info merged =
      if info.selected_port == 0
      then merged
      else add_target (domain_for_container_localhost info)
          (host_port (host_for cfg info) info.selected_port)
          (add_target (domain_for_container cfg info)
            (host_port (host_for cfg info) info.selected_port) merged)

  unfoldable pub add_by_custom : List CustomDomain → ContainerInfo → Targets → Targets
  add_by_custom [] info merged = add_selected info merged
  add_by_custom (cd ∷ cds) info merged = add_custom info (cd ∷ cds) merged

  unfoldable pub add_container : ContainerInfo → Targets → Targets
  add_container info merged =
      if not info.is_running then merged else add_by_custom info.custom_domains info merged

  unfoldable pub merge_targets : List ContainerInfo → Targets → Targets
  merge_targets [] merged = merged
  merge_targets (info ∷ infos) merged = merge_targets infos (add_container info merged)

  unfoldable pub sort_targets : Targets → Targets
  sort_targets [] = []
  sort_targets ((d, ts) ∷ merged) = (d, sort str_le ts) ∷ sort_targets merged

  unfoldable pub domain_targets : Containers → Targets
  domain_targets m = sort_targets (merge_targets (values m) [])

  -- `if !seen[d] { seen[d] = true; domains = append(domains, d) }`; what is seen is what is listed.
  unfoldable pub add_domain : Str → List Str → List Str
  add_domain d domains = if contains domains d then domains else domains ++ d ∷ []

  unfoldable pub add_custom_names : List CustomDomain → List Str → List Str
  add_custom_names [] domains = domains
  add_custom_names (cd ∷ cds) domains = add_custom_names cds (add_domain cd.domain domains)

  unfoldable pub add_names_by : List CustomDomain → ContainerInfo → List Str → List Str
  add_names_by [] info domains =
      if not (has_reachable_port info)
      then domains
      else add_domain (domain_for_container_localhost info)
          (add_domain (domain_for_container cfg info) domains)
  add_names_by (cd ∷ cds) info domains = add_custom_names (cd ∷ cds) domains

  unfoldable pub add_names : ContainerInfo → List Str → List Str
  add_names info domains =
      if not info.is_running then domains else add_names_by info.custom_domains info domains

  unfoldable pub collect_names : List ContainerInfo → List Str → List Str
  collect_names [] domains = domains
  collect_names (info ∷ infos) domains = collect_names infos (add_names info domains)

  unfoldable pub domains : Containers → List Str
  domains m = sort str_le (collect_names (values m) [])

  -- `Containers`. `sort.Slice` may order containers of one domain either way; here they keep their order.
  unfoldable pub containers : Containers → List ContainerInfo
  containers m =
      sort (λ a b. str_le (domain_for_container cfg a) (domain_for_container cfg b)) (values m)
