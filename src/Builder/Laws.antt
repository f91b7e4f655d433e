-- ===== src/Builder/Laws.antt =====
-- Which route stands under which ID.
use mathlib.Core.List.{cons-ne-nil}
use caddy_dev_local.Base.{
  ◌≡◌, ◌≢◌, refl, ap, ◌∙◌, Bool, Option, none, some, List, [], ◌∷◌, ◌==◌, nat_eq, list_eq,
  if◌then◌else◌, ◌>>=◌, arith, Option-cases, inl, inr, ◌↔◌,
}
use caddy_dev_local.Base.Dict.{
  Dict, lookup, insert, keys, lookup-insert, NodupKeys, insert-NodupKeys,
}
use caddy_dev_local.Base.Sort.{sort}
use caddy_dev_local.Str.{Str, str_le}
use caddy_dev_local.Builder.{
  Json, DevlocalConfig, route_id, reverse_proxy_route, or_nil, add_routes, build_policies,
  with_index_route, index_route, build_devlocal_config, tls_policy, tls_policy_id,
}

module _ (marshal : Json → Option Str) (targets : Dict Str (List Str)) (tracing : Bool) where
  -- The route for a host.
  abbrev pub route_for : Str → Option Str
  route_for host =
      marshal (reverse_proxy_route host (sort str_le (or_nil (lookup host targets))) tracing)

  -- Of the hosts with an ID, the last one's route; if there is none, what was there before.
  abbrev pub last_route : Str → List Str → Option Str → Option Str
  last_route id [] before = before
  last_route id (host ∷ hosts) before =
      last_route id hosts (if id == route_id host then route_for host else before)

  add_routes-cons :
      (host : Str) (hosts : List Str) (routes : Dict Str Str) (route : Str)
      → route_for host ≡ some route
      → add_routes marshal targets tracing (host ∷ hosts) routes
        ≡ add_routes marshal targets tracing hosts (insert (route_id host) route routes)
  unfolding add_routes
  add_routes-cons host hosts routes route e = rw (e, add_routes) refl

  -- The table of routes, entry by entry.
  abbrev pub IsTable : List Str → Dict Str Str → Dict Str Str → Type 0
  IsTable hosts routes result =
      NodupKeys result × ((id : Str) → lookup id result ≡ last_route id hosts (lookup id routes))

  add_routes-IsTable :
      (hosts : List Str) (routes : Dict Str Str)
      → ((j : Json) → marshal j ≢ none)
      → NodupKeys routes
      → (result : Dict Str Str) × (add_routes marshal targets tracing hosts routes ≡ some result)
        × IsTable hosts routes result
  add_routes-IsTable [] routes m u = (routes, unfold add_routes in refl, (u, λ id. refl))
  add_routes-IsTable (host ∷ hosts) routes m u = elim (Option-cases (route_for host)) [
    | inl e ↦ absurd (m _ e)
    | inr (route, e) ↦
        let (result, r, (v, f)) =
          add_routes-IsTable hosts (insert (route_id host) route routes) m
            (insert-NodupKeys (route_id host) route routes u) in
        (
          result,
          add_routes-cons host hosts routes route e ∙ r,
          (
            v,
            λ id.
                f id
                ∙ ap (last_route id hosts)
                    (ground (arith, e, lookup-insert id (route_id host) route routes)),
          ),
        )
  ]

  build_policies-some :
      (domains : List Str)
      → ((j : Json) → marshal j ≢ none)
      → (policies : Dict Str Str) × (build_policies marshal domains ≡ some policies)
        × ((domains ≡ []) ↔ (policies ≡ []))
  build_policies-some [] m = ([], unfold build_policies in refl, (λ h. refl, λ h. refl))
  build_policies-some (d ∷ domains) m = elim (Option-cases (marshal (tls_policy (d ∷ domains)))) [
    | inl e ↦ absurd (m _ e)
    | inr (policy, e) ↦ (
      (tls_policy_id, policy) ∷ [],
      unfold build_policies in rw e refl,
      (
        λ h. absurd (cons-ne-nil d domains h),
        λ h. absurd (cons-ne-nil (tls_policy_id, policy) [] h),
      ),
    )
  ]

  -- Suppose that values can be turned into JSON. Then the configuration is built. Under each route ID
  -- it has the route of the last domain, in order, that has the ID, and no route for any other ID.
  -- There is a TLS policy just if there is a domain.
  pub build_devlocal_config-IsTable :
      (tld index_dir : Str)
      → ((j : Json) → marshal j ≢ none)
      → (c : DevlocalConfig) × (build_devlocal_config marshal tld index_dir targets tracing
          ≡ some c)
        × NodupKeys c.routes
        × ((id : Str) → lookup id c.routes ≡ last_route id (sort str_le (keys targets)) none)
        × ((sort str_le (keys targets) ≡ []) ↔ (c.policies ≡ []))
  build_devlocal_config-IsTable tld index_dir m =
      elim (Option-cases (marshal (index_route tld index_dir (sort str_le (keys targets))))) [
        | inl e ↦ absurd (m _ e)
        | inr (index, e) ↦
            let (routes, r, (u, f)) = add_routes-IsTable (sort str_le (keys targets)) [] m tt in
            let (policies, p, g) = build_policies-some (sort str_le (keys targets)) m in
            (
              record { routes = routes; policies = policies; index_route = index },
              unfold build_devlocal_config with_index_route in rw (e, ◌>>=◌, r, ◌>>=◌, p) refl,
              u,
              λ id. f id ∙ ap (last_route id (sort str_le (keys targets))) (unfold lookup in refl),
              g,
            )
      ]
