-- ===== src/Generator/Refresh.antt =====
-- `Refresh`, `refreshLocked` and `StaleCleanup` of generator/generator.go. The mutex makes each of
-- them one step; `now` is the time that the step reads.
pub mod Laws
pub mod Map
pub mod Safety
use caddy_dev_local.Base.{
  ℕ, Bool, true, false, Option, none, some, List, [], ◌∷◌, ◌==◌, list_eq, nat_eq, list_dec, nat_dec,
  not, ◌&&◌, ◌||◌, if◌then◌else◌, contains, ◌>>=◌,
}
use caddy_dev_local.Base.Dict.{Dict, lookup, insert, keep_if}
use caddy_dev_local.Str.{Str, codes}
use caddy_dev_local.Config.{Config}
use caddy_dev_local.Docker.{Summary}
use caddy_dev_local.Generator.{
  ContainerInfo, Containers, TargetKind, unreachable, dns, gateway, not_empty, is_expired,
}
use caddy_dev_local.Generator.Build.{
  SelfInfo, should_skip, reachability, build_container_info, discover_self,
}

abbrev pub running : Str
running = codes "running"

unfoldable pub is_unreachable : TargetKind → Bool
is_unreachable unreachable = true
is_unreachable dns = false
is_unreachable gateway = false

-- What a container that does not run takes over from the entry before.
unfoldable pub stopped_info : ℕ → Option ContainerInfo → ContainerInfo → ContainerInfo
stopped_info now none info = record info { is_running = false; last_stopped = some now }
stopped_info now (some prev) info = record info {
  is_running = false;
  ports = prev.ports;
  published_ports = prev.published_ports;
  selected_port = prev.selected_port;
  ip_address = prev.ip_address;
  last_stopped = if prev.is_running then some now else prev.last_stopped;
}

unfoldable pub with_state : Summary → ℕ → Option ContainerInfo → ContainerInfo → ContainerInfo
unfolding stopped_info nat_dec list_dec
with_state c now prev info =
    if c.state == running
    then record info { is_running = true; last_stopped = none }
    else stopped_info now prev info

-- `seen` and `g.containers` in the first loop
pub record Pass : Type 0 where
  pub seen : List Str
  pub found : Containers

unfoldable pub absorb : Summary → ℕ → Option ContainerInfo → Pass → Pass
absorb c now none p = p
absorb c now (some info) p = record {
  seen = info.container_id ∷ p.seen;
  found =
      insert info.container_id (with_state c now (lookup info.container_id p.found) info) p.found;
}

module _ (cfg : Config) (now : ℕ) where
  -- The three tests with which the loop passes a container over.
  unfoldable pub passed_over : SelfInfo → Summary → Bool
  unfolding is_unreachable not_empty
  passed_over self c =
      (not_empty self.id && c.id == self.id)
      || should_skip c
      || not cfg.standalone && is_unreachable (reachability cfg c self)

  unfoldable pub refresh_one : SelfInfo → Summary → Pass → Option Pass
  refresh_one self c p =
      if passed_over self c
      then some p
      else do info ← build_container_info cfg c self; some (absorb c now info p)

  unfoldable pub refresh_loop : SelfInfo → List Summary → Pass → Option Pass
  refresh_loop self [] p = some p
  refresh_loop self (c ∷ cs) p = elim (refresh_one self c p) [
    | none ↦ none
    | some q ↦ refresh_loop self cs q
  ]

  -- The second loop keeps what was seen, and stopped containers for a while.
  unfoldable pub survives : List Str → Str → ContainerInfo → Bool
  survives seen id info =
      if contains seen id
      then true
      else if info.is_running
      then false
      else not (is_expired cfg now info)

  unfoldable pub refresh_from : SelfInfo → List Summary → Containers → Option Containers
  refresh_from self containers m =
      elim (refresh_loop self containers (record { seen = []; found = m })) [
        | none ↦ none
        | some p ↦ some (keep_if (survives p.seen) p.found)
      ]

  -- `hostname` is `g.selfHostname`.
  unfoldable pub refresh_locked : Str → List Summary → Containers → Option Containers
  refresh_locked hostname containers m = do
    self ← discover_self hostname containers
    refresh_from self containers m

  unfoldable pub keeps_entry : Str → ContainerInfo → Bool
  keeps_entry id info = not (not info.is_running && is_expired cfg now info)

  unfoldable pub stale_cleanup : Containers → Containers
  stale_cleanup m = keep_if keeps_entry m

-- The error that `Refresh` and `RefreshAndSelect` return when the containers cannot be listed.
pub data Refreshed : Type 0 where
  panicked : Refreshed
  list_error : Containers → Refreshed
  refreshed : Containers → Refreshed

unfoldable pub refreshed_or_panicked : Option Containers → Refreshed
refreshed_or_panicked none = panicked
refreshed_or_panicked (some m) = refreshed m

-- `Refresh`, from what the Docker API answers
unfoldable pub refresh : Config → ℕ → Str → Option (List Summary) → Containers → Refreshed
unfolding refreshed_or_panicked
refresh cfg now hostname none m = list_error m
refresh cfg now hostname (some containers) m =
    refreshed_or_panicked (refresh_locked cfg now hostname containers m)
