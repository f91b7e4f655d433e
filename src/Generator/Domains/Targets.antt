-- ===== src/Generator/Domains/Targets.antt =====
-- What `DomainTargets` of generator/generator.go returns under each domain.
use caddy_dev_local.Base.{
  ◌≡◌, refl, sym, ap, ◌∙◌, List, [], ◌∷◌, ◌++◌, append_assoc, append-nil, ◌==◌, list_eq, nat_eq,
  if◌then◌else◌, arith,
}
use caddy_dev_local.Base.Dict.{lookup, values, lookup-insert}
use caddy_dev_local.Base.Sort.{sort}
use caddy_dev_local.Str.{Str, str_le}
use caddy_dev_local.Config.{Config}
use caddy_dev_local.Generator.{
  CustomDomain, ContainerInfo, Containers, effective_port, host_for, domain_for_container,
  domain_for_container_localhost, host_port,
}
use caddy_dev_local.Generator.Domains.{
  Targets, or_empty, add_target, add_custom, add_selected, add_by_custom, add_container,
  merge_targets, sort_targets, domain_targets,
}

-- A text, if the domain is the one that is asked for.
abbrev pub at : Str → Str → Str → List Str
at d domain target = if d == domain then target ∷ [] else []

module _ (cfg : Config) (d : Str) where
  abbrev pub custom_at : ContainerInfo → List CustomDomain → List Str
  custom_at info [] = []
  custom_at info (cd ∷ cds) =
      at d cd.domain (host_port (host_for cfg info) (effective_port info cd.port))
      ++ custom_at info cds

  abbrev pub selected_at : ContainerInfo → List Str
  selected_at info =
      if info.selected_port == 0
      then []
      else at d (domain_for_container cfg info) (host_port (host_for cfg info) info.selected_port)
        ++ at d (domain_for_container_localhost info)
            (host_port (host_for cfg info) info.selected_port)

  abbrev pub custom_or_selected_at : List CustomDomain → ContainerInfo → List Str
  custom_or_selected_at [] info = selected_at info
  custom_or_selected_at (cd ∷ cds) info = custom_at info (cd ∷ cds)

  -- The targets that a container offers under the domain.
  abbrev pub targets_at : ContainerInfo → List Str
  targets_at info = if info.is_running then custom_or_selected_at info.custom_domains info else []

  abbrev pub all_targets_at : List ContainerInfo → List Str
  all_targets_at [] = []
  all_targets_at (info ∷ infos) = targets_at info ++ all_targets_at infos

  -- What is stored under the domain; nothing and an empty list count as one.
  abbrev pub stored_at : Targets → List Str
  stored_at merged = or_empty (lookup d merged)

  stored_at-add_target :
      (domain target : Str) (m : Targets)
      → stored_at (add_target domain target m) ≡ stored_at m ++ at d domain target
  unfolding or_empty add_target
  stored_at-add_target domain target m = ground (
    arith,
    lookup-insert d domain (or_empty (lookup domain m) ++ target ∷ []) m,
    append-nil (or_empty (lookup d m)),
  )

  stored_at-add_custom :
      (info : ContainerInfo) (cds : List CustomDomain) (m : Targets)
      → stored_at (add_custom cfg info cds m) ≡ stored_at m ++ custom_at info cds
  unfolding add_custom
  stored_at-add_custom info [] m = sym (append-nil (stored_at m))
  stored_at-add_custom info (cd ∷ cds) m =
      let target : Str = host_port (host_for cfg info) (effective_port info cd.port) in
      stored_at-add_custom info cds (add_target cd.domain target m)
      ∙ (ap (λ l. l ++ custom_at info cds) (stored_at-add_target cd.domain target m)
          ∙ append_assoc (stored_at m) (at d cd.domain target) (custom_at info cds))

  stored_at-add_selected :
      (info : ContainerInfo) (m : Targets)
      → stored_at (add_selected cfg info m) ≡ stored_at m ++ selected_at info
  unfolding add_selected
  stored_at-add_selected info m =
      let target : Str = host_port (host_for cfg info) info.selected_port in
      ground (
        arith,
        append-nil (stored_at m),
        stored_at-add_target (domain_for_container_localhost info) target
              (add_target (domain_for_container cfg info) target m)
            ∙ (ap (λ l. l ++ at d (domain_for_container_localhost info) target)
                  (stored_at-add_target (domain_for_container cfg info) target m)
                ∙ append_assoc (stored_at m) (at d (domain_for_container cfg info) target)
                    (at d (domain_for_container_localhost info) target)),
      )

  stored_at-add_by_custom :
      (cds : List CustomDomain) (info : ContainerInfo) (m : Targets)
      → stored_at (add_by_custom cfg cds info m) ≡ stored_at m ++ custom_or_selected_at cds info
  unfolding add_by_custom
  stored_at-add_by_custom [] info m = stored_at-add_selected info m
  stored_at-add_by_custom (cd ∷ cds) info m = stored_at-add_custom info (cd ∷ cds) m

  stored_at-add_container :
      (info : ContainerInfo) (m : Targets)
      → stored_at (add_container cfg info m) ≡ stored_at m ++ targets_at info
  unfolding add_container
  stored_at-add_container info m =
      ground (arith, append-nil (stored_at m), stored_at-add_by_custom info.custom_domains info m)

  stored_at-merge_targets :
      (infos : List ContainerInfo) (m : Targets)
      → stored_at (merge_targets cfg infos m) ≡ stored_at m ++ all_targets_at infos
  unfolding merge_targets
  stored_at-merge_targets [] m = sym (append-nil (stored_at m))
  stored_at-merge_targets (info ∷ infos) m =
      stored_at-merge_targets infos (add_container cfg info m)
      ∙ (ap (λ l. l ++ all_targets_at infos) (stored_at-add_container info m)
          ∙ append_assoc (stored_at m) (targets_at info) (all_targets_at infos))

  stored_at-sort_targets :
      (m : Targets) → stored_at (sort_targets cfg m) ≡ sort str_le (stored_at m)
  unfolding sort_targets lookup or_empty sort
  stored_at-sort_targets [] = refl
  stored_at-sort_targets ((k, ts) ∷ m) = ground (arith, stored_at-sort_targets m)

  stored_at-none : stored_at [] ≡ []
  unfolding or_empty lookup
  stored_at-none = refl

  -- Under each domain the sorted targets of all containers are stored: of a running container with
  -- custom domains one target for each custom domain that is the domain, of another running
  -- container with a selected port the target under its two names.
  pub or_empty-domain_targets :
      (m : Containers)
      → or_empty (lookup d (domain_targets cfg m)) ≡ sort str_le (all_targets_at (values m))
  unfolding domain_targets
  or_empty-domain_targets m =
      stored_at-sort_targets (merge_targets cfg (values m) [])
      ∙ ap (sort str_le) (
          stored_at-merge_targets (values m) []
          ∙ ap (λ l. l ++ all_targets_at (values m)) stored_at-none)
