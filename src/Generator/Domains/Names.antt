-- ===== src/Generator/Domains/Names.antt =====
-- Which names `Domains` of generator/generator.go lists, and how they relate to `DomainTargets`.
use mathlib.Core.Path.{subst}
use caddy_dev_local.Base.{
  ◌≡◌, refl, sym, ap, ◌∙◌, true, List, [], ◌∷◌, ◌++◌, In, In-append_left, In-append_right,
  In-append, list_eq, nat_eq, if◌then◌else◌, contains, arith, ◌⊎◌, inl, inr, ◌↔◌, Bool-cases,
}
use caddy_dev_local.Base.Dict.{values}
use caddy_dev_local.Base.Sort.{In-sort}
use caddy_dev_local.Str.{Str, str_le}
use caddy_dev_local.Config.{Config}
use caddy_dev_local.Generator.{
  CustomDomain, ContainerInfo, Containers, has_reachable_port, domain_for_container,
  domain_for_container_localhost,
}
use caddy_dev_local.Generator.Domains.{
  add_domain, add_custom_names, add_names_by, add_names, collect_names, domains,
}

abbrev pub custom_names : List CustomDomain → List Str
custom_names [] = []
custom_names (cd ∷ cds) = cd.domain ∷ custom_names cds

module _ (cfg : Config) where
  abbrev pub names_by : List CustomDomain → ContainerInfo → List Str
  names_by [] info =
      if has_reachable_port info
      then domain_for_container cfg info ∷ domain_for_container_localhost info ∷ []
      else []
  names_by (cd ∷ cds) info = custom_names (cd ∷ cds)

  -- The names of a container: its custom domains if it has any, else its two own names if it has a
  -- port that can be reached; none while it does not run.
  abbrev pub names_of : ContainerInfo → List Str
  names_of info = if info.is_running then names_by info.custom_domains info else []

  abbrev pub all_names : List ContainerInfo → List Str
  all_names [] = []
  all_names (info ∷ infos) = names_of info ++ all_names infos

  -- `add_domain` for each name.
  abbrev pub add_all : List Str → List Str → List Str
  add_all [] seen = seen
  add_all (n ∷ ns) seen = add_all ns (add_domain cfg n seen)

  add_all-append : (ns ms seen : List Str) → add_all (ns ++ ms) seen ≡ add_all ms (add_all ns seen)
  add_all-append [] ms seen = refl
  add_all-append (n ∷ ns) ms seen = add_all-append ns ms (add_domain cfg n seen)

  add_custom_names-eq :
      (cds : List CustomDomain) (seen : List Str)
      → add_custom_names cfg cds seen ≡ add_all (custom_names cds) seen
  unfolding add_custom_names
  add_custom_names-eq [] seen = refl
  add_custom_names-eq (cd ∷ cds) seen = add_custom_names-eq cds (add_domain cfg cd.domain seen)

  add_names_by-eq :
      (cds : List CustomDomain) (info : ContainerInfo) (seen : List Str)
      → add_names_by cfg cds info seen ≡ add_all (names_by cds info) seen
  unfolding add_names_by
  add_names_by-eq [] info seen = ground arith
  add_names_by-eq (cd ∷ cds) info seen = add_custom_names-eq (cd ∷ cds) seen

  add_names-eq :
      (info : ContainerInfo) (seen : List Str)
      → add_names cfg info seen ≡ add_all (names_of info) seen
  unfolding add_names
  add_names-eq info seen = ground (arith, add_names_by-eq info.custom_domains info seen)

  pub collect_names-eq :
      (infos : List ContainerInfo) (seen : List Str)
      → collect_names cfg infos seen ≡ add_all (all_names infos) seen
  unfolding collect_names
  collect_names-eq [] seen = refl
  collect_names-eq (info ∷ infos) seen =
      collect_names-eq infos (add_names cfg info seen)
      ∙ (ap (add_all (all_names infos)) (add_names-eq info seen)
          ∙ sym (add_all-append (names_of info) (all_names infos) seen))

  contains-In : (n : Str) (seen : List Str) → contains seen n ≡ true → In n seen
  contains-In n [] h = cc
  contains-In n (x ∷ seen) h = ground (arith, contains-In n seen)

  add_domain-In : (a n : Str) (seen : List Str) → (a ≡ n) ⊎ In a seen → In a (add_domain cfg n seen)
  unfolding add_domain
  add_domain-In a n seen (inl e) = elim (Bool-cases (contains seen n)) [
    | inl c ↦ rw c (subst (λ x. In x seen) (sym e) (contains-In n seen c))
    | inr c ↦ rw c (In-append_right a seen (n ∷ []) (inl e))
  ]
  add_domain-In a n seen (inr h) = elim (Bool-cases (contains seen n)) [
    | inl c ↦ rw c h
    | inr c ↦ rw c (In-append_left a seen (n ∷ []) h)
  ]

  In-add_domain : (a n : Str) (seen : List Str) → In a (add_domain cfg n seen) → (a ≡ n) ⊎ In a seen
  unfolding add_domain
  In-add_domain a n seen h = ground (arith, In-append a seen (n ∷ []))

  add_all-In : (a : Str) (ns seen : List Str) → In a ns ⊎ In a seen → In a (add_all ns seen)
  add_all-In a [] seen (inl h) = absurd h
  add_all-In a [] seen (inr h) = h
  add_all-In a (n ∷ ns) seen (inl (inl e)) =
      add_all-In a ns (add_domain cfg n seen) (inr (add_domain-In a n seen (inl e)))
  add_all-In a (n ∷ ns) seen (inl (inr h)) = add_all-In a ns (add_domain cfg n seen) (inl h)
  add_all-In a (n ∷ ns) seen (inr h) =
      add_all-In a ns (add_domain cfg n seen) (inr (add_domain-In a n seen (inr h)))

  In-add_all : (a : Str) (ns seen : List Str) → In a (add_all ns seen) → In a ns ⊎ In a seen
  In-add_all a [] seen h = inr h
  In-add_all a (n ∷ ns) seen h = elim (In-add_all a ns (add_domain cfg n seen) h) [
    | inl k ↦ inl (inr k)
    | inr k ↦ elim (In-add_domain a n seen k) [ inl e ↦ inl (inl e) | inr m ↦ inr m ]
  ]

  -- A name is listed just if it is a name of one of the containers.
  pub In-domains : (m : Containers) (n : Str) → In n (domains cfg m) ↔ In n (all_names (values m))
  unfolding domains
  In-domains m n = rw (collect_names-eq (values m) []) (
    λ h.
        elim (In-add_all n (all_names (values m)) []
          ((In-sort str_le n (add_all (all_names (values m)) [])).0 h)) [
            | inl k ↦ k
            | inr k ↦ absurd k
          ],
    λ h.
        (In-sort str_le n (add_all (all_names (values m)) [])).1
          (add_all-In n (all_names (values m)) [] (inl h)),
  )
