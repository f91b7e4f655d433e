-- ===== src/Generator/Refresh/Laws.antt =====
-- What the map of containers holds after a refresh and after a cleanup.
use caddy_dev_local.Base.{
  ℕ, ◌≡◌, ◌≢◌, refl, Bool, true, false, Option, none, some, List, [], ◌∷◌, ◌==◌, list_eq, nat_eq,
  not, ◌&&◌, ◌||◌, if◌then◌else◌, contains, arith, Bool-cases, All, inl, inr, Option-cases,
}
use caddy_dev_local.Base.Dict.{lookup, NodupKeys, lookup-insert, insert-NodupKeys}
use caddy_dev_local.Str.{Str, codes}
use caddy_dev_local.Config.{Config}
use caddy_dev_local.Docker.{Summary, container_name}
use caddy_dev_local.Generator.{ContainerInfo, is_expired}
use caddy_dev_local.Generator.Build.{SelfInfo, should_skip, built, build_container_info}
use caddy_dev_local.Generator.Refresh.{
  Pass, stopped_info, with_state, absorb, passed_over, refresh_one, refresh_loop,
}

abbrev pub ids : List Summary → List Str
ids [] = []
ids (c ∷ cs) = c.id ∷ ids cs

-- No two listed containers have the same ID.
abbrev pub DistinctIds : List Summary → Type 0
DistinctIds [] = Unit
DistinctIds (c ∷ cs) = (contains (ids cs) c.id ≡ false) × DistinctIds cs

-- A container has a name or an ID of at least 12 characters.
abbrev pub IsNamed : Summary → Type 0
IsNamed c = container_name c ≢ none

abbrev pub name_of : Summary → Str
name_of c = elim (container_name c) [ none ↦ [] | some n ↦ n ]

-- A field of the old entry where there is one and the container does not run, else the new value.
abbrev pub taken_over {ℓ} : {A : Type ℓ} → Bool → Option ContainerInfo → (ContainerInfo → A) → A → A
taken_over true prev f new = new
taken_over false none f new = new
taken_over false (some prev) f new = f prev

-- When a container was stopped: never where it runs, now where there is no old entry or the old entry
-- was running, else when the old entry says.
abbrev pub stopped_since : Bool → ℕ → Option ContainerInfo → Option ℕ
stopped_since true now prev = none
stopped_since false now none = some now
stopped_since false now (some prev) = if prev.is_running then some now else prev.last_stopped

-- The entry of a listed container, field by field, from the information built from the listing.
abbrev pub listed_entry : Summary → ℕ → Option ContainerInfo → ContainerInfo → ContainerInfo
listed_entry c now prev info =
    let runs = c.state == codes "running" in
    record info {
      is_running = runs;
      last_stopped = stopped_since runs now prev;
      ports = taken_over runs prev (λ p. p.ports) info.ports;
      published_ports = taken_over runs prev (λ p. p.published_ports) info.published_ports;
      selected_port = taken_over runs prev (λ p. p.selected_port) info.selected_port;
      ip_address = taken_over runs prev (λ p. p.ip_address) info.ip_address;
    }

pub with_state-listed_entry :
    (c : Summary) (now : ℕ) (prev : Option ContainerInfo) (info : ContainerInfo)
    → with_state c now prev info ≡ listed_entry c now prev info
unfolding with_state stopped_info
with_state-listed_entry c now none info = ground arith
with_state-listed_entry c now (some prev) info = ground arith

module _ (cfg : Config) (now : ℕ) (self : SelfInfo) where
  -- The listed container with the ID that is not passed over.
  abbrev pub listed : Str → List Summary → Option Summary
  listed id [] = none
  listed id (c ∷ cs) =
      if id == c.id && not (passed_over cfg now self c) then some c else listed id cs

  -- What a refresh should leave under an ID, from the listed container and the entry before.
  abbrev pub entry_after : Option Summary → Option ContainerInfo → Option ContainerInfo
  entry_after (some c) prev = some (listed_entry c now prev (built cfg c self (name_of c)))
  entry_after none none = none
  entry_after none (some info) =
      if info.is_running then none else if is_expired cfg now info then none else some info

  abbrev pub found_after : Option Summary → Option ContainerInfo → Option ContainerInfo
  found_after none prev = prev
  found_after (some c) prev = some (with_state c now prev (built cfg c self (name_of c)))

  abbrev pub is_listed : Option Summary → Bool
  is_listed none = false
  is_listed (some c) = true

  -- One round that does not panic.
  step : Summary → Pass → Pass
  step c p =
      if passed_over cfg now self c then p else absorb c now (some (built cfg c self (name_of c))) p

  pub not-skipped : (c : Summary) → passed_over cfg now self c ≡ false → should_skip c ≡ false
  unfolding passed_over
  not-skipped c h = ground arith

  build-named :
      (c : Summary)
      → should_skip c ≡ false
      → IsNamed c
      → build_container_info cfg c self ≡ some (some (built cfg c self (name_of c)))
  unfolding build_container_info
  build-named c h n = elim (Option-cases (container_name c)) [
    | inl e ↦ absurd (n e)
    | inr (a, e) ↦ ground arith
  ]

  refresh_one-step :
      (c : Summary) (p : Pass) → IsNamed c → refresh_one cfg now self c p ≡ some (step c p)
  unfolding refresh_one step
  refresh_one-step c p h = elim (Bool-cases (passed_over cfg now self c)) [
    | inl e ↦ rw e
    | inr e ↦ rw (e, build-named c (not-skipped c e) h)
  ]

  container_id-built : (c : Summary) (name : Str) → (built cfg c self name).container_id ≡ c.id
  unfolding built
  container_id-built c name = refl

  lookup-absorb :
      (id : Str) (c : Summary) (info : ContainerInfo) (p : Pass)
      → info.container_id ≡ c.id
      → lookup id (absorb c now (some info) p).found ≡ (
          if id == c.id
          then some (with_state c now (lookup id p.found) info)
          else lookup id p.found)
  unfolding absorb
  lookup-absorb id c info p e =
      rw
        (lookup-insert id info.container_id
          (with_state c now (lookup info.container_id p.found) info) p.found)
        (ground arith)

  seen-absorb :
      (id : Str) (c : Summary) (info : ContainerInfo) (p : Pass)
      → info.container_id ≡ c.id
      → contains (absorb c now (some info) p).seen id ≡ (id == c.id || contains p.seen id)
  unfolding absorb
  seen-absorb id c info p e = ground arith

  -- What one round does to the entry of an ID.
  lookup-step :
      (id : Str) (c : Summary) (p : Pass)
      → lookup id (step c p).found ≡ (
          if id == c.id && not (passed_over cfg now self c)
          then some (with_state c now (lookup id p.found) (built cfg c self (name_of c)))
          else lookup id p.found)
  unfolding step
  lookup-step id c p =
      let info : ContainerInfo = built cfg c self (name_of c) in
      ground (arith, lookup-absorb id c info p (container_id-built c (name_of c)))

  seen-step :
      (id : Str) (c : Summary) (p : Pass)
      → contains (step c p).seen id
        ≡ (id == c.id && not (passed_over cfg now self c) || contains p.seen id)
  unfolding step
  seen-step id c p =
      let info : ContainerInfo = built cfg c self (name_of c) in
      ground (arith, seen-absorb id c info p (container_id-built c (name_of c)))

  step-NodupKeys : (c : Summary) (p : Pass) → NodupKeys p.found → NodupKeys (step c p).found
  unfolding step absorb
  step-NodupKeys c p h = elim (Bool-cases (passed_over cfg now self c)) [
    | inl e ↦ rw e h
    | inr e ↦ rw e (insert-NodupKeys _ _ p.found h)
  ]

  pub run : List Summary → Pass → Pass
  run [] p = p
  run (c ∷ cs) p = run cs (step c p)

  pub refresh_loop-run :
      (cs : List Summary) (p : Pass)
      → All IsNamed cs
      → refresh_loop cfg now self cs p ≡ some (run cs p)
  unfolding refresh_loop run
  refresh_loop-run [] p h = refl
  refresh_loop-run (c ∷ cs) p h =
      rw (refresh_one-step c p h.0, refresh_loop) (refresh_loop-run cs (step c p) h.1)

  listed-none : (id : Str) (cs : List Summary) → contains (ids cs) id ≡ false → listed id cs ≡ none
  listed-none id [] h = refl
  listed-none id (c ∷ cs) h = ground (arith, listed-none id cs)

  pub lookup-run :
      (id : Str) (cs : List Summary) (p : Pass)
      → DistinctIds cs
      → lookup id (run cs p).found ≡ found_after (listed id cs) (lookup id p.found)
  unfolding run
  lookup-run id [] p h = refl
  lookup-run id (c ∷ cs) p h =
      ground (arith, lookup-run id cs (step c p) h.1, lookup-step id c p, listed-none id cs)

  pub seen-run :
      (id : Str) (cs : List Summary) (p : Pass)
      → contains (run cs p).seen id ≡ (is_listed (listed id cs) || contains p.seen id)
  unfolding run
  seen-run id [] p = refl
  seen-run id (c ∷ cs) p = ground (arith, seen-run id cs (step c p), seen-step id c p)

  pub run-NodupKeys :
      (cs : List Summary) (p : Pass) → NodupKeys p.found → NodupKeys (run cs p).found
  unfolding run
  run-NodupKeys [] p h = h
  run-NodupKeys (c ∷ cs) p h = run-NodupKeys cs (step c p) (step-NodupKeys c p h)
