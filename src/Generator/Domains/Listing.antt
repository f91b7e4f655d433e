-- ===== src/Generator/Domains/Listing.antt =====
-- The list that `Domains` of generator/generator.go returns: its order, and the domains that are
-- proxied in it.
use mathlib.Core.List.{Permᴰ}
use caddy_dev_local.Base.{
  ◌≡◌, ◌≢◌, refl, sym, ap, ◌∙◌, true, false, Option, none, some, List, [], ◌∷◌, ◌++◌, ◌==◌, list_eq,
  nat_eq, ◌||◌, contains, arith, inl, inr, Bool-cases,
}
use caddy_dev_local.Base.Dict.{lookup, values}
use caddy_dev_local.Base.Sort.{sort, IsSorted, sort-IsSorted}
use caddy_dev_local.Base.Distinct.{
  Nodup, contains-append, snoc-Nodup, contains-sort, sort-Nodup, sorted_unique,
}
use caddy_dev_local.Str.{Str, str_le}
use caddy_dev_local.Str.Order.{str_le-IsLinear}
use caddy_dev_local.Config.{Config}
use caddy_dev_local.Generator.{CustomDomain, ContainerInfo, Containers, has_reachable_port}
use caddy_dev_local.Generator.Domains.{or_empty, add_domain, domains, domain_targets}
use caddy_dev_local.Generator.Domains.Filled.{domain_targets-IsFilled}
use caddy_dev_local.Generator.Domains.Targets.{
  custom_at, selected_at, custom_or_selected_at, targets_at, all_targets_at,
  or_empty-domain_targets,
}
use caddy_dev_local.Generator.Domains.Names.{
  custom_names, names_by, names_of, all_names, add_all, collect_names-eq,
}

module _ (cfg : Config) where
  add_domain-Nodup : (n : Str) (seen : List Str) → Nodup seen → Nodup (add_domain cfg n seen)
  unfolding add_domain
  add_domain-Nodup n seen u = ground (arith, u, snoc-Nodup seen n)

  add_all-Nodup : (ns seen : List Str) → Nodup seen → Nodup (add_all cfg ns seen)
  add_all-Nodup [] seen u = u
  add_all-Nodup (n ∷ ns) seen u =
      add_all-Nodup ns (add_domain cfg n seen) (add_domain-Nodup n seen u)

  domains-eq :
      (m : Containers) → domains cfg m ≡ sort str_le (add_all cfg (all_names cfg (values m)) [])
  unfolding domains
  domains-eq m = rw (collect_names-eq cfg (values m) []) refl

  -- The domains are listed in order and none twice.
  pub domains-IsSorted : (m : Containers) → IsSorted str_le (domains cfg m) × Nodup (domains cfg m)
  domains-IsSorted m = rw (domains-eq m) (
    sort-IsSorted str_le str_le-IsLinear.total (add_all cfg (all_names cfg (values m)) []),
    sort-Nodup str_le (add_all cfg (all_names cfg (values m)) [])
        (add_all-Nodup (all_names cfg (values m)) [] tt),
  )

  contains-add_domain :
      (a n : Str) (seen : List Str)
      → contains (add_domain cfg n seen) a ≡ (a == n || contains seen a)
  unfolding add_domain
  contains-add_domain a n seen = ground (arith, contains-append a seen (n ∷ []))

  contains-add_all :
      (a : Str) (ns seen : List Str)
      → contains (add_all cfg ns seen) a ≡ (contains ns a || contains seen a)
  contains-add_all a [] seen = refl
  contains-add_all a (n ∷ ns) seen =
      ground (arith, contains-add_all a ns (add_domain cfg n seen), contains-add_domain a n seen)

  contains-domains :
      (m : Containers) (a : Str)
      → contains (domains cfg m) a ≡ contains (all_names cfg (values m)) a
  contains-domains m a =
      ap (λ l. contains l a) (domains-eq m)
      ∙ (contains-sort str_le a (add_all cfg (all_names cfg (values m)) [])
          ∙ ground (arith, contains-add_all a (all_names cfg (values m)) []))

  contains-names_perm :
      (a : Str) {xs ys : List ContainerInfo}
      → Permᴰ xs ys
      → contains (all_names cfg xs) a ≡ contains (all_names cfg ys) a
  contains-names_perm a Permᴰ.nil = refl
  contains-names_perm a (Permᴰ.cons {a = x} {b = y} {l₁ = l₁} {l₂ = l₂} e p) =
      contains-append a (names_of cfg x) (all_names cfg l₁)
      ∙ (ap (λ b. contains (names_of cfg x) a || b) (contains-names_perm a p)
          ∙ (sym (contains-append a (names_of cfg x) (all_names cfg l₂))
              ∙ ap (λ c. contains (names_of cfg c ++ all_names cfg l₂) a) e))
  contains-names_perm a (Permᴰ.swap {a = x} {b = y} {a' = x'} {b' = y'} {l = l} e f) =
      ground (
        arith,
        contains-append a (names_of cfg x) (names_of cfg y ++ all_names cfg l),
        contains-append a (names_of cfg y) (all_names cfg l),
        contains-append a (names_of cfg y) (names_of cfg x ++ all_names cfg l),
        contains-append a (names_of cfg x) (all_names cfg l),
      )
      ∙ (ap (λ c. contains (names_of cfg c ++ (names_of cfg x ++ all_names cfg l)) a) f
          ∙ ap (λ c. contains (names_of cfg x' ++ (names_of cfg c ++ all_names cfg l)) a) e)
  contains-names_perm a (Permᴰ.trans p q) = contains-names_perm a p ∙ contains-names_perm a q

  -- The list of domains does not depend on the order in which the map of containers is visited.
  pub domains-perm :
      (m m' : Containers) → Permᴰ (values m) (values m') → domains cfg m ≡ domains cfg m'
  domains-perm m m' p =
      sorted_unique str_le str_le-IsLinear (domains cfg m) (domains cfg m') (domains-IsSorted m).0
        (domains-IsSorted m').0 (domains-IsSorted m).1 (domains-IsSorted m').1
        (λ a. contains-domains m a ∙ (contains-names_perm a p ∙ sym (contains-domains m' a)))

  module _ (d : Str) where
    custom_at_unnamed :
        (info : ContainerInfo) (cds : List CustomDomain)
        → contains (custom_names cds) d ≡ false
        → custom_at cfg d info cds ≡ []
    custom_at_unnamed info [] h = refl
    custom_at_unnamed info (cd ∷ cds) h = ground (arith, h, custom_at_unnamed info cds)

    selected_at_unnamed :
        (info : ContainerInfo)
        → contains (names_by cfg [] info) d ≡ false
        → selected_at cfg d info ≡ []
    unfolding has_reachable_port
    selected_at_unnamed info h = ground (arith, h)

    by_custom_unnamed :
        (cds : List CustomDomain) (info : ContainerInfo)
        → contains (names_by cfg cds info) d ≡ false
        → custom_or_selected_at cfg d cds info ≡ []
    by_custom_unnamed [] info h = selected_at_unnamed info h
    by_custom_unnamed (cd ∷ cds) info h = custom_at_unnamed info (cd ∷ cds) h

    targets_at_unnamed :
        (info : ContainerInfo) → contains (names_of cfg info) d ≡ false → targets_at cfg d info ≡ []
    targets_at_unnamed info h = ground (arith, h, by_custom_unnamed info.custom_domains info)

    all_targets_unnamed :
        (infos : List ContainerInfo)
        → contains (all_names cfg infos) d ≡ false
        → all_targets_at cfg d infos ≡ []
    all_targets_unnamed [] h = refl
    all_targets_unnamed (info ∷ infos) h = ground (
      arith,
      h,
      contains-append d (names_of cfg info) (all_names cfg infos),
      targets_at_unnamed info,
      all_targets_unnamed infos,
    )

    no_targets : (o : Option (List Str)) → o ≢ some [] → or_empty o ≡ [] → o ≡ none
    unfolding or_empty
    no_targets none h e = refl
    no_targets (some ts) h e = absurd (h (ap some e))

    unlisted_none :
        (m : Containers)
        → contains (domains cfg m) d ≡ false
        → lookup d (domain_targets cfg m) ≡ none
    unlisted_none m h =
        no_targets (lookup d (domain_targets cfg m)) (domain_targets-IsFilled cfg d m) (
          or_empty-domain_targets cfg d m
          ∙ (ap (sort str_le) (all_targets_unnamed (values m) (sym (contains-domains m d) ∙ h))
              ∙ (unfold sort in refl)))

    -- Every domain that has targets is listed.
    pub domain_targets-domains :
        (m : Containers)
        → lookup d (domain_targets cfg m) ≢ none
        → contains (domains cfg m) d ≡ true
    domain_targets-domains m h = elim (Bool-cases (contains (domains cfg m) d)) [
      | inl e ↦ e
      | inr e ↦ absurd (h (unlisted_none m e))
    ]
