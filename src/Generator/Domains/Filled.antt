-- ===== src/Generator/Domains/Filled.antt =====
-- `DomainTargets` of generator/generator.go: no list of targets is empty, and the order in which the map
-- of containers is visited makes no difference.
use mathlib.Core.Path.{subst}
use mathlib.Core.List.{Permᴰ, cons-ne-nil}
use mathlib.Core.List.Permᴰ
use mathlib.Core.Option.{none-ne-some}
use caddy_dev_local.Base.{
  ◌≡◌, ◌≢◌, refl, sym, ap, ◌∙◌, Option, none, some, List, [], ◌∷◌, ◌++◌, ◌==◌, list_eq, nat_eq,
  arith, inl, inr, Bool-cases,
}
use caddy_dev_local.Base.Dict.{lookup, values, lookup-insert}
use caddy_dev_local.Base.Sort.{sort, insert_sorted, sort-eq_of_perm}
use caddy_dev_local.Str.{Str, str_le}
use caddy_dev_local.Str.Order.{str_le-IsLinear}
use caddy_dev_local.Config.{Config}
use caddy_dev_local.Generator.{
  CustomDomain, ContainerInfo, Containers, domain_for_container, domain_for_container_localhost,
}
use caddy_dev_local.Generator.Domains.{
  Targets, or_empty, add_target, add_custom, add_selected, add_by_custom, add_container,
  merge_targets, sort_targets, domain_targets,
}
use caddy_dev_local.Generator.Domains.Targets.{targets_at, all_targets_at, or_empty-domain_targets}

swap_append {ℓ} : {A : Type ℓ} (xs ys zs : List A) → Permᴰ (xs ++ (ys ++ zs)) (ys ++ (xs ++ zs))
swap_append [] ys zs = Permᴰ.refl (ys ++ zs)
swap_append (x ∷ xs) ys zs =
    Permᴰ.trans (Permᴰ.cons refl (swap_append xs ys zs)) (Permᴰ.symm (Permᴰ.middle x ys (xs ++ zs)))

snoc-ne-nil {ℓ} : {A : Type ℓ} (xs : List A) (x : A) → some (xs ++ x ∷ []) ≢ some []
snoc-ne-nil [] x h = cc
snoc-ne-nil (y ∷ xs) x h = cc

insert_sorted-ne-nil : (t : Str) (ts : List Str) → insert_sorted str_le t ts ≢ []
unfolding insert_sorted
insert_sorted-ne-nil t [] = cons-ne-nil t []
insert_sorted-ne-nil t (u ∷ ts) = ground (arith, cons-ne-nil t (u ∷ ts))

sort_cons-ne-nil : (t : Str) (ts : List Str) → sort str_le (t ∷ ts) ≢ []
unfolding sort
sort_cons-ne-nil t ts h = insert_sorted-ne-nil t (sort str_le ts) h

module _ (cfg : Config) (d : Str) where
  all_targets_at-perm :
      {xs ys : List ContainerInfo}
      → Permᴰ xs ys
      → Permᴰ (all_targets_at cfg d xs) (all_targets_at cfg d ys)
  all_targets_at-perm Permᴰ.nil = Permᴰ.nil
  all_targets_at-perm (Permᴰ.cons {a = a} {l₁ = l₁} {l₂ = l₂} e p) =
      subst
        (λ c.
          Permᴰ (targets_at cfg d a ++ all_targets_at cfg d l₁)
            (targets_at cfg d c ++ all_targets_at cfg d l₂))
        e (Permᴰ.append_left (targets_at cfg d a) (all_targets_at-perm p))
  all_targets_at-perm (Permᴰ.swap {a = a} {b = b} {b' = b'} {l = l} e f) =
      subst
        (λ c.
          Permᴰ (targets_at cfg d a ++ (targets_at cfg d b ++ all_targets_at cfg d l))
            (targets_at cfg d c ++ (targets_at cfg d b' ++ all_targets_at cfg d l)))
        f
        (subst
          (λ c.
            Permᴰ (targets_at cfg d a ++ (targets_at cfg d b ++ all_targets_at cfg d l))
              (targets_at cfg d b ++ (targets_at cfg d c ++ all_targets_at cfg d l)))
          e (swap_append (targets_at cfg d a) (targets_at cfg d b) (all_targets_at cfg d l)))
  all_targets_at-perm (Permᴰ.trans p q) =
      Permᴰ.trans (all_targets_at-perm p) (all_targets_at-perm q)

  -- No list is stored empty.
  abbrev pub IsFilled : Targets → Type 0
  IsFilled m = lookup d m ≢ some []

  add_target-IsFilled :
      (domain target : Str) (m : Targets) → IsFilled m → IsFilled (add_target domain target m)
  unfolding add_target
  add_target-IsFilled domain target m h = ground (
    arith,
    lookup-insert d domain (or_empty (lookup domain m) ++ target ∷ []) m,
    snoc-ne-nil (or_empty (lookup domain m)) target,
  )

  add_custom-IsFilled :
      (info : ContainerInfo) (cds : List CustomDomain) (m : Targets)
      → IsFilled m
      → IsFilled (add_custom cfg info cds m)
  unfolding add_custom
  add_custom-IsFilled info [] m h = h
  add_custom-IsFilled info (cd ∷ cds) m h =
      add_custom-IsFilled info cds _ (add_target-IsFilled cd.domain _ m h)

  add_selected-IsFilled :
      (info : ContainerInfo) (m : Targets) → IsFilled m → IsFilled (add_selected cfg info m)
  unfolding add_selected
  add_selected-IsFilled info m h = elim (Bool-cases (info.selected_port == 0)) [
    | inl e ↦ rw e h
    | inr e ↦ rw e (
        add_target-IsFilled (domain_for_container_localhost info) _ _
          (add_target-IsFilled (domain_for_container cfg info) _ m h))
  ]

  add_by_custom-IsFilled :
      (cds : List CustomDomain) (info : ContainerInfo) (m : Targets)
      → IsFilled m
      → IsFilled (add_by_custom cfg cds info m)
  unfolding add_by_custom
  add_by_custom-IsFilled [] info m h = add_selected-IsFilled info m h
  add_by_custom-IsFilled (cd ∷ cds) info m h = add_custom-IsFilled info (cd ∷ cds) m h

  add_container-IsFilled :
      (info : ContainerInfo) (m : Targets) → IsFilled m → IsFilled (add_container cfg info m)
  unfolding add_container
  add_container-IsFilled info m h =
      ground (arith, h, add_by_custom-IsFilled info.custom_domains info m h)

  merge_targets-IsFilled :
      (infos : List ContainerInfo) (m : Targets) → IsFilled m → IsFilled (merge_targets cfg infos m)
  unfolding merge_targets
  merge_targets-IsFilled [] m h = h
  merge_targets-IsFilled (info ∷ infos) m h =
      merge_targets-IsFilled infos (add_container cfg info m) (add_container-IsFilled info m h)

  sort_targets-IsFilled : (m : Targets) → IsFilled m → IsFilled (sort_targets cfg m)
  unfolding sort_targets lookup
  sort_targets-IsFilled [] h = h
  sort_targets-IsFilled ((k, []) ∷ m) h = ground (arith, sort_targets-IsFilled m)
  sort_targets-IsFilled ((k, t ∷ ts) ∷ m) h =
      ground (arith, sort_targets-IsFilled m, sort_cons-ne-nil t ts)

  -- No domain has an empty list of targets.
  pub domain_targets-IsFilled : (m : Containers) → IsFilled (domain_targets cfg m)
  unfolding domain_targets
  domain_targets-IsFilled m =
      sort_targets-IsFilled (merge_targets cfg (values m) [])
        (merge_targets-IsFilled (values m) [] (unfold lookup in none-ne-some []))

  same_of_filled :
      (a b : Option (List Str)) → or_empty a ≡ or_empty b → a ≢ some [] → b ≢ some [] → a ≡ b
  unfolding or_empty
  same_of_filled none none h f g = refl
  same_of_filled none (some t) h f g = absurd (g (ap some (sym h)))
  same_of_filled (some t) none h f g = absurd (f (ap some h))
  same_of_filled (some t) (some u) h f g = ap some h

  -- The targets under a domain do not depend on the order in which the map of containers is visited.
  pub lookup-domain_targets_perm :
      (m m' : Containers)
      → Permᴰ (values m) (values m')
      → lookup d (domain_targets cfg m) ≡ lookup d (domain_targets cfg m')
  lookup-domain_targets_perm m m' p =
      same_of_filled (lookup d (domain_targets cfg m)) (lookup d (domain_targets cfg m'))
        (or_empty-domain_targets cfg d m
          ∙ (sort-eq_of_perm str_le str_le-IsLinear (all_targets_at-perm p)
              ∙ sym (or_empty-domain_targets cfg d m')))
        (domain_targets-IsFilled m) (domain_targets-IsFilled m')
