-- ===== src/Generator/Refresh/Safety.antt =====
-- Which entries run after a refresh, and what a cleanup leaves.
use mathlib.Core.Path.{subst}
use mathlib.Core.Option
use caddy_dev_local.Base.{
  ℕ, ◌≡◌, refl, sym, ap, ◌∙◌, Bool, true, false, Option, none, some, List, [], ◌∷◌, ◌==◌, ==_iff,
  list_eq, nat_eq, not, ◌&&◌, if◌then◌else◌, arith, Bool-cases, All, inl, inr, In,
}
use caddy_dev_local.Base.Dict.{lookup, kept, NodupKeys, lookup-keep_if, keep_if-NodupKeys}
use caddy_dev_local.Str.{Str}
use caddy_dev_local.Config.{Config}
use caddy_dev_local.Docker.{Summary}
use caddy_dev_local.Generator.{ContainerInfo, Containers, is_expired}
use caddy_dev_local.Generator.Build.{SelfInfo, should_skip, built}
use caddy_dev_local.Generator.Refresh.{
  running, with_state, stopped_info, passed_over, refresh_locked, keeps_entry, stale_cleanup,
}
use caddy_dev_local.Generator.Refresh.Laws.{
  DistinctIds, IsNamed, name_of, listed, with_state-listed_entry, entry_after, not-skipped,
}
use caddy_dev_local.Generator.Refresh.Map.{refresh_locked-map}

choose_true {ℓ} : {A : Type ℓ} (b : Bool) (x y : A) → b ≡ true → (if b then x else y) ≡ x
choose_true true x y h = refl
choose_true false x y h = cc

choose_false {ℓ} : {A : Type ℓ} (b : Bool) (x y : A) → b ≡ false → (if b then x else y) ≡ y
choose_false true x y h = cc
choose_false false x y h = refl

module _ (cfg : Config) (now : ℕ) where
  listed-In :
      (self : SelfInfo) (id : Str) (cs : List Summary) (c : Summary)
      → listed cfg now self id cs ≡ some c
      → In c cs × ((id ≡ c.id) × (passed_over cfg now self c ≡ false))
  listed-In self id [] c h = cc
  listed-In self id (x ∷ cs) c h =
      elim (Bool-cases (id == x.id && not (passed_over cfg now self x))) [
        | inl e ↦
            let same : x ≡ c =
              Option.some-injective x c
                (sym (choose_true _ (some x) (listed cfg now self id cs) e) ∙ h) in
            subst (λ z. In z (x ∷ cs) × ((id ≡ z.id) × (passed_over cfg now self z ≡ false))) same
              (inl refl, ((==_iff id x.id).0 (ground (arith, e)), ground (arith, e)))
        | inr e ↦
            let (i, r) =
              listed-In self id cs c
                (sym (choose_false _ (some x) (listed cfg now self id cs) e) ∙ h) in
            (inr i, r)
      ]

  pub stopped_info-stopped :
      (prev : Option ContainerInfo) (info : ContainerInfo)
      → (stopped_info now prev info).is_running ≡ false
  unfolding stopped_info
  stopped_info-stopped none info = refl
  stopped_info-stopped (some prev) info = refl

  with_state-running :
      (c : Summary) (prev : Option ContainerInfo) (info : ContainerInfo)
      → (with_state c now prev info).is_running ≡ true
      → c.state ≡ running
  unfolding with_state
  with_state-running c prev info h = elim (Bool-cases (c.state == running)) [
    | inl e ↦ (==_iff c.state running).0 e
    | inr e ↦ absurd (ground (arith, h, e, stopped_info-stopped prev info))
  ]

  -- What a container must be so that it runs after a refresh.
  abbrev pub IsServed : List Summary → Str → Type 0
  IsServed cs id =
      (c : Summary) × In c cs × (c.id ≡ id) × (c.state ≡ running) × (should_skip c ≡ false)

  pub stopped_after :
      (old info : ContainerInfo) (runs expired : Bool)
      → old.is_running ≡ runs
      → (if runs then none else if expired then none else some old) ≡ some info
      → info.is_running ≡ false
  stopped_after old info true expired e h = cc
  stopped_after old info false true e h = cc
  stopped_after old info false false e h =
      ap (λ x. x.is_running) (sym (Option.some-injective old info h)) ∙ e

  entry-IsServed :
      (self : SelfInfo) (id : Str) (cs : List Summary) (prev : Option ContainerInfo)
      (info : ContainerInfo) (o : Option Summary)
      → listed cfg now self id cs ≡ o
      → entry_after cfg now self o prev ≡ some info
      → info.is_running ≡ true
      → IsServed cs id
  entry-IsServed self id cs none info none e h r = cc
  entry-IsServed self id cs (some old) info none e h r =
      absurd
        (ground (arith, r, stopped_after old info old.is_running (is_expired cfg now old) refl h))
  entry-IsServed self id cs prev info (some c) e h r =
      let (i, (same, p)) = listed-In self id cs c e in
      let info_eq : with_state c now prev (built cfg c self (name_of c)) ≡ info =
        with_state-listed_entry c now prev (built cfg c self (name_of c))
        ∙ Option.some-injective _ _ h in
      (
        c,
        i,
        sym same,
        with_state-running c prev (built cfg c self (name_of c))
            (ap (λ x. x.is_running) info_eq ∙ r),
        not-skipped cfg now self c p,
      )

  -- On a list of containers that have names and distinct IDs, what runs after a refresh is listed in
  -- state "running" and is not skipped by its label.
  pub running_entry-IsServed :
      (hostname : Str) (cs : List Summary) (m m' : Containers) (id : Str) (info : ContainerInfo)
      → All IsNamed cs
      → DistinctIds cs
      → NodupKeys m
      → refresh_locked cfg now hostname cs m ≡ some m'
      → lookup id m' ≡ some info
      → info.is_running ≡ true
      → IsServed cs id
  running_entry-IsServed hostname cs m m' id info hn hd hm e f r =
      let (self, n, d, en, u, g) = refresh_locked-map cfg now hostname cs m hn hd hm in
      let same : n ≡ m' = Option.some-injective n m' (sym en ∙ e) in
      entry-IsServed self id cs (lookup id m) info (listed cfg now self id cs) refl
        (sym (g id) ∙ (ap (lookup id) same ∙ f)) r

  -- The entry that a cleanup should leave.
  abbrev pub cleaned : Option ContainerInfo → Option ContainerInfo
  cleaned none = none
  cleaned (some info) =
      if info.is_running then some info else if is_expired cfg now info then none else some info

  kept-cleaned : (id : Str) (o : Option ContainerInfo) → kept (keeps_entry cfg now) id o ≡ cleaned o
  unfolding keeps_entry
  kept-cleaned id none = refl
  kept-cleaned id (some info) = ground arith

  -- A cleanup drops a stopped entry that has expired, and keeps every other entry.
  pub lookup-stale_cleanup :
      (m : Containers)
      → NodupKeys m
      → NodupKeys (stale_cleanup cfg now m)
        × ((id : Str) → lookup id (stale_cleanup cfg now m) ≡ cleaned (lookup id m))
  unfolding stale_cleanup
  lookup-stale_cleanup m u = (
    keep_if-NodupKeys (keeps_entry cfg now) m u,
    λ id. lookup-keep_if (keeps_entry cfg now) id m u ∙ kept-cleaned id (lookup id m),
  )
