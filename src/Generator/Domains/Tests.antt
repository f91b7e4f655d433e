-- ===== src/Generator/Domains/Tests.antt =====
-- The theorems on domains and their targets at two containers.
use mathlib.Core.List.{Permᴰ}
use mathlib.Core.Path.{subst}
use mathlib.Core.Option.{some-ne-none}
use caddy_dev_local.Base.{
  ℕ, ◌≡◌, ◌≢◌, refl, sym, Bool, true, false, Option, none, some, List, [], ◌∷◌, In, ◌↔◌, contains,
  nat_eq, list_eq,
}
use caddy_dev_local.Base.Dict.{Dict, lookup, values}
use caddy_dev_local.Base.Sort.{sort}
use caddy_dev_local.Str.{Str, codes, str_le}
use caddy_dev_local.Generator.{ContainerInfo, Containers}
use caddy_dev_local.Generator.Samples.{cfg, old, with_port_selected}
use caddy_dev_local.Generator.Domains.{or_empty, domain_targets, domains}
use caddy_dev_local.Generator.Domains.Targets.{all_targets_at, or_empty-domain_targets}
use caddy_dev_local.Generator.Domains.Listing.{domains-perm, domain_targets-domains}

abbrev both : Containers
both = (codes "w1", with_port_selected) ∷ (codes "o1", old) ∷ []

abbrev swapped : Containers
swapped = (codes "o1", old) ∷ (codes "w1", with_port_selected) ∷ []

abbrev name : Str
name = codes "web.t"

or_empty-domain_targets_example :
    or_empty (lookup name (domain_targets cfg both))
    ≡ sort str_le (all_targets_at cfg name (values both))
or_empty-domain_targets_example = or_empty-domain_targets cfg name both

both-perm : Permᴰ (values both) (values swapped)
both-perm = Permᴰ.swap refl refl

domains-perm_example : domains cfg both ≡ domains cfg swapped
domains-perm_example = domains-perm cfg both swapped both-perm

has_targets : lookup name (domain_targets cfg both) ≡ some (codes "localhost:8080" ∷ [])
unfolding lookup domain_targets caddy_dev_local.Generator.Domains.sort_targets
    caddy_dev_local.Generator.Domains.merge_targets caddy_dev_local.Generator.Domains.add_container
    caddy_dev_local.Generator.Domains.add_by_custom caddy_dev_local.Generator.Domains.add_selected
    caddy_dev_local.Base.nat_dec caddy_dev_local.Generator.Domains.add_target
    caddy_dev_local.Base.Dict.insert caddy_dev_local.Base.list_dec
    caddy_dev_local.Generator.domain_for_container_localhost
    caddy_dev_local.Generator.domain_for_container sort or_empty caddy_dev_local.Generator.host_port
    caddy_dev_local.Generator.host_for
has_targets = refl

domain_targets-domains_example : contains (domains cfg both) name ≡ true
domain_targets-domains_example =
    domain_targets-domains cfg name both
      (subst (λ o. o ≢ none) (sym has_targets) (some-ne-none (codes "localhost:8080" ∷ [])))
