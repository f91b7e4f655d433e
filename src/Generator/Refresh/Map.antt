-- ===== src/Generator/Refresh/Map.antt =====
-- The map after a whole refresh and after a cleanup, entry by entry.
use caddy_dev_local.Base.{
  ℕ, ◌≡◌, ◌≢◌, refl, ap, ◌∙◌, Bool, true, false, Option, none, some, List, [], ◌∷◌, list_eq, nat_eq,
  ◌||◌, contains, ◌>>=◌, arith, All,
}
use caddy_dev_local.Base.Dict.{lookup, keep_if, kept, NodupKeys, lookup-keep_if, keep_if-NodupKeys}
use mathlib.Core.Option.{some-ne-none}
use caddy_dev_local.Str.{Str}
use caddy_dev_local.Config.{Config}
use caddy_dev_local.Docker.{Summary, container_name}
use caddy_dev_local.Generator.{ContainerInfo, Containers}
use caddy_dev_local.Generator.Build.{
  SelfInfo, built, discover_self, find_self, is_self_container, matches_hostname,
}
use caddy_dev_local.Generator.Refresh.{Pass, survives, refresh_from, refresh_locked}
use caddy_dev_local.Generator.Refresh.Laws.{
  DistinctIds, IsNamed, name_of, with_state-listed_entry, listed, entry_after, found_after,
  is_listed, run, refresh_loop-run, lookup-run, seen-run, run-NodupKeys,
}

matches_hostname-ne-none :
    (c : Summary) (hostname : Str) (name : Option Str)
    → name ≢ none
    → matches_hostname c hostname name ≢ none
unfolding matches_hostname
matches_hostname-ne-none c hostname none h = absurd (h refl)
matches_hostname-ne-none c hostname (some name) h = some-ne-none _

is_self_container-ne-none :
    (c : Summary) (hostname : Str) → IsNamed c → is_self_container c hostname ≢ none
unfolding is_self_container
is_self_container-ne-none c hostname h =
    ground (arith, matches_hostname-ne-none c hostname (container_name c) h)

find_self-ne-none :
    (hostname : Str) (cs : List Summary) → All IsNamed cs → find_self hostname cs ≢ none
unfolding find_self
find_self-ne-none hostname [] h = some-ne-none _
find_self-ne-none hostname (c ∷ cs) h =
    ground (arith, is_self_container-ne-none c hostname h.0, find_self-ne-none hostname cs h.1)

discover_self-ne-none :
    (hostname : Str) (cs : List Summary) → All IsNamed cs → discover_self hostname cs ≢ none
unfolding discover_self
discover_self-ne-none [] cs h = some-ne-none _
discover_self-ne-none (x ∷ hostname) cs h = find_self-ne-none (x ∷ hostname) cs h

or_false : (b : Bool) → (b || false) ≡ b
or_false true = refl
or_false false = refl

module _ (cfg : Config) (now : ℕ) where
  module _ (self : SelfInfo) where
    entry-survives :
        (id : Str) (c : Option Summary) (seen : List Str) (prev : Option ContainerInfo)
        → contains seen id ≡ is_listed cfg now self c
        → kept (survives cfg now seen) id (found_after cfg now self c prev)
          ≡ entry_after cfg now self c prev
    unfolding survives
    entry-survives id (some c) seen prev e =
        ground (arith, with_state-listed_entry c now prev (built cfg c self (name_of c)))
    entry-survives id none seen none e = refl
    entry-survives id none seen (some info) e = ground arith

    refresh_from-run :
        (cs : List Summary) (m : Containers)
        → All IsNamed cs
        → refresh_from cfg now self cs m
          ≡ some (
              keep_if
                (survives cfg now (run cfg now self cs (record { seen = []; found = m })).seen)
                (run cfg now self cs (record { seen = []; found = m })).found)
    unfolding refresh_from
    refresh_from-run cs m hn =
        rw (refresh_loop-run cfg now self cs (record { seen = []; found = m }) hn, refresh_from)

    refresh_from-map :
        (cs : List Summary) (m : Containers)
        → All IsNamed cs
        → DistinctIds cs
        → NodupKeys m
        → (m' : Containers) × (refresh_from cfg now self cs m ≡ some m')
          × NodupKeys m'
          × ((id : Str)
              → lookup id m' ≡ entry_after cfg now self (listed cfg now self id cs) (lookup id m))
    refresh_from-map cs m hn hd hm =
        let p : Pass = run cfg now self cs (record { seen = []; found = m }) in
        (
          keep_if (survives cfg now p.seen) p.found,
          refresh_from-run cs m hn,
          keep_if-NodupKeys (survives cfg now p.seen) p.found
              (run-NodupKeys cfg now self cs (record { seen = []; found = m }) hm),
          λ id.
              lookup-keep_if (survives cfg now p.seen) id p.found
                (run-NodupKeys cfg now self cs (record { seen = []; found = m }) hm)
              ∙ (ap (kept (survives cfg now p.seen) id)
                    (lookup-run cfg now self id cs (record { seen = []; found = m }) hd)
                  ∙ entry-survives id (listed cfg now self id cs) p.seen (lookup id m)
                      (seen-run cfg now self id cs (record { seen = []; found = m }) ∙ or_false _)),
        )

  refresh_locked_self :
      (hostname : Str) (cs : List Summary) (m : Containers) (self : SelfInfo)
      → discover_self hostname cs ≡ some self
      → refresh_locked cfg now hostname cs m ≡ refresh_from cfg now self cs m
  unfolding refresh_locked
  refresh_locked_self hostname cs m self e = rw (e, ◌>>=◌)

  -- Suppose that every listed container has a name or an ID of 12 characters, that the IDs are
  -- distinct, and that the map has no key twice. Then a refresh does not panic, the new map has no key
  -- twice, and under each ID it holds: for a listed container that is not passed over, the information
  -- built from the listing. Where the container does not run, the ports, the published ports, the
  -- selected port and the address are those of the old entry, if there is one, and it counts as stopped
  -- since the time that an old entry that was not running has, else since now. For any other ID it holds
  -- the old entry, if that is stopped and has not expired; else nothing.
  pub refresh_locked-map :
      (hostname : Str) (cs : List Summary) (m : Containers)
      → All IsNamed cs
      → DistinctIds cs
      → NodupKeys m
      → (self : SelfInfo) × (m' : Containers) × (discover_self hostname cs ≡ some self)
        × (refresh_locked cfg now hostname cs m ≡ some m')
        × NodupKeys m'
        × ((id : Str)
            → lookup id m' ≡ entry_after cfg now self (listed cfg now self id cs) (lookup id m))
  refresh_locked-map hostname cs m hn hd hm = with_self (discover_self hostname cs) refl
    where
      with_self :
          (o : Option SelfInfo)
          → discover_self hostname cs ≡ o
          → (self : SelfInfo) × (m' : Containers) × (discover_self hostname cs ≡ some self)
            × (refresh_locked cfg now hostname cs m ≡ some m')
            × NodupKeys m'
            × ((id : Str)
                → lookup id m' ≡ entry_after cfg now self (listed cfg now self id cs) (lookup id m))
      with_self none e = absurd (discover_self-ne-none hostname cs hn e)
      with_self (some self) e =
          let (m', r, u, f) = refresh_from-map self cs m hn hd hm in
          (self, m', e, refresh_locked_self hostname cs m self e ∙ r, u, f)
