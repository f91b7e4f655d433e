-- ===== src/Generator/Select/Safety.antt =====
-- `RefreshAndSelect` as a whole: which ports are selected when it returns.
use mathlib.Core.Path.{subst}
use mathlib.Core.Option
use caddy_dev_local.Base.{
  ℕ, ◌≡◌, ◌≢◌, refl, sym, ap, ◌∙◌, Bool, true, false, Option, none, some, List, ◌==◌, nat_eq,
  list_eq, if◌then◌else◌, contains, map, arith, All, inl, inr,
}
use caddy_dev_local.Base.Dict.{lookup, NodupKeys}
use caddy_dev_local.Str.{Str}
use caddy_dev_local.Config.{Config}
use caddy_dev_local.Docker.{Summary}
use caddy_dev_local.Generator.{ContainerInfo, Containers, effective_port, host_for, is_expired}
use caddy_dev_local.Generator.Build.{SelfInfo, built}
use caddy_dev_local.Generator.Refresh.{
  refreshed, refreshed_or_panicked, running, with_state, stopped_info, refresh_locked,
}
use caddy_dev_local.Generator.Refresh.Laws.{
  DistinctIds, IsNamed, name_of, with_state-listed_entry, listed, entry_after,
}
use caddy_dev_local.Generator.Refresh.Map.{refresh_locked-map}
use caddy_dev_local.Generator.Refresh.Safety.{stopped_info-stopped, stopped_after}
use caddy_dev_local.Generator.Select.{
  probe_http_port, select_one, select_ports_locked, select_after, refresh_and_select,
}
use caddy_dev_local.Generator.Select.Laws.{
  IsSelection, select_one-IsSelection, lookup-select_ports_locked,
}

selected_port-built :
    (cfg : Config) (c : Summary) (self : SelfInfo) (name : Str)
    → (built cfg c self name).selected_port ≡ 0
unfolding built
selected_port-built cfg c self name = refl

module _ (cfg : Config) (now : ℕ) where
  with_state-selected_port :
      (c : Summary) (prev : Option ContainerInfo) (info : ContainerInfo)
      → (with_state c now prev info).is_running ≡ true
      → (with_state c now prev info).selected_port ≡ info.selected_port
  unfolding with_state
  with_state-selected_port c prev info h = by_state (c.state == running) h
    where
      by_state :
          (b : Bool)
          → (if b
              then record info { is_running = true; last_stopped = none }
              else stopped_info now prev info).is_running
            ≡ true
          → (if b
              then record info { is_running = true; last_stopped = none }
              else stopped_info now prev info).selected_port
            ≡ info.selected_port
      by_state true k = refl
      by_state false k = absurd (ground (arith, k, stopped_info-stopped cfg now prev info))

  -- After a refresh, a running entry has no selected port.
  entry-unselected :
      (self : SelfInfo) (o : Option Summary) (prev : Option ContainerInfo) (info : ContainerInfo)
      → entry_after cfg now self o prev ≡ some info
      → info.is_running ≡ true
      → info.selected_port ≡ 0
  entry-unselected self none none info h r = cc
  entry-unselected self none (some old) info h r = absurd (
      ground
        (arith, r, stopped_after cfg now old info old.is_running (is_expired cfg now old) refl h))
  entry-unselected self (some c) prev info h r =
      let info_eq : with_state c now prev (built cfg c self (name_of c)) ≡ info =
        with_state-listed_entry c now prev (built cfg c self (name_of c))
        ∙ Option.some-injective _ _ h in
      ap (λ x. x.selected_port) (sym info_eq)
      ∙ (with_state-selected_port c prev (built cfg c self (name_of c))
            (ap (λ x. x.is_running) info_eq ∙ r)
          ∙ selected_port-built cfg c self (name_of c))

  module _ (responds : Str → ℕ → Bool) where
    -- The selected port is an effective port of the entry, and something responds there.
    abbrev pub IsProbed : ContainerInfo → Type 0
    IsProbed info =
        (contains (map (effective_port info) info.ports) info.selected_port ≡ true)
        × (responds (host_for cfg info) info.selected_port ≡ true)

    with_port-IsProbed :
        (info : ContainerInfo) (port : ℕ)
        → contains (map (effective_port info) info.ports) port ≡ true
        → responds (host_for cfg info) port ≡ true
        → IsProbed (record info { selected_port = port })
    unfolding host_for effective_port
    with_port-IsProbed info port h k = (h, k)

    selected-IsProbed :
        (before info : ContainerInfo)
        → IsSelection cfg responds before info
        → (before.is_running ≡ true → before.selected_port ≡ 0)
        → info.is_running ≡ true
        → info.selected_port ≢ 0
        → IsProbed info
    selected-IsProbed before info (inl e) z r n =
        absurd (n (ap (λ x. x.selected_port) e ∙ z (ap (λ x. x.is_running) (sym e) ∙ r)))
    selected-IsProbed before info (inr (port, e, _, _, h, k)) z r n =
        subst IsProbed (sym e) (with_port-IsProbed before port h k)

    entry-IsProbed :
        (o : Option ContainerInfo) (info : ContainerInfo)
        → Option.map (select_one cfg (probe_http_port responds)) o ≡ some info
        → ((before : ContainerInfo)
            → o ≡ some before
            → before.is_running ≡ true
            → before.selected_port ≡ 0)
        → info.is_running ≡ true
        → info.selected_port ≢ 0
        → IsProbed info
    entry-IsProbed none info h z r n = cc
    entry-IsProbed (some before) info h z r n =
        let e : select_one cfg (probe_http_port responds) before ≡ info =
          Option.some-injective _ _ h in
        selected-IsProbed before info
          (subst (IsSelection cfg responds before) e (select_one-IsSelection cfg responds before))
          (z before refl) r n

    refreshed-injective : (m n : Containers) → refreshed m ≡ refreshed n → m ≡ n
    refreshed-injective m n e = cc

    after_refresh :
        (hostname : Str) (cs : List Summary) (m n : Containers)
        → refresh_locked cfg now hostname cs m ≡ some n
        → refresh_and_select cfg (probe_http_port responds) now hostname (some cs) m
          ≡ refreshed (select_ports_locked cfg (probe_http_port responds) n)
    unfolding refresh_and_select
    after_refresh hostname cs m n e =
        ap (λ o. select_after cfg (probe_http_port responds) (refreshed_or_panicked o)) e
        ∙ (unfold select_after refreshed_or_panicked in refl)

    -- On a list of containers that have names and distinct IDs, RefreshAndSelect returns a map, and
    -- wherever a running entry of it has a selected port, that is an effective port of the entry at
    -- which something responded on the host of the entry.
    pub refresh_and_select-IsProbed :
        (hostname : Str) (cs : List Summary) (m : Containers)
        → All IsNamed cs
        → DistinctIds cs
        → NodupKeys m
        → (m' : Containers) × (refresh_and_select cfg
              (probe_http_port responds)
              now
              hostname
              (some cs)
              m
            ≡ refreshed m')
          × ((id : Str) (info : ContainerInfo)
              → lookup id m' ≡ some info
              → info.is_running ≡ true
              → info.selected_port ≢ 0
              → IsProbed info)
    refresh_and_select-IsProbed hostname cs m hn hd hm =
        let (self, n, d, e, u, g) = refresh_locked-map cfg now hostname cs m hn hd hm in
        (
          select_ports_locked cfg (probe_http_port responds) n,
          after_refresh hostname cs m n e,
          λ id info h r k.
              entry-IsProbed (lookup id n) info
                (sym (lookup-select_ports_locked cfg responds id n) ∙ h)
                (λ before b.
                  entry-unselected self (listed cfg now self id cs) (lookup id m) before
                    (sym (g id) ∙ b))
                r k,
        )
