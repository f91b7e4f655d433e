-- ===== src/Generator/Select/Laws.antt =====
-- What the probe answers and what the selection of ports changes.
use mathlib.Core.Path.{subst}
use caddy_dev_local.Base.{
  map, ap, ℕ, ◌≡◌, refl, sym, ◌∙◌, Bool, true, false, Option, none, some, List, [], ◌∷◌, ◌++◌,
  list_eq, nat_eq, not, ◌&&◌, if◌then◌else◌, contains, arith, ◌⊎◌, inl, inr,
}
use mathlib.Core.Option
use caddy_dev_local.Base.Dict.{lookup}
use caddy_dev_local.Base.Distinct.{contains-append}
use caddy_dev_local.Str.{Str}
use caddy_dev_local.Config.{Config}
use caddy_dev_local.Docker.{get_label}
use caddy_dev_local.Generator.{ContainerInfo, Containers, effective_port, not_empty, host_for}
use caddy_dev_local.Generator.Custom.{domains_label}
use caddy_dev_local.Generator.Select.{
  common_http_ports, kept_of, left_of, prefer_ports, first_responding, probe_http_port,
  probe_target, set_selected, select_one, select_ports_locked,
}

contains-kept_of :
    (a : ℕ) (ports ps : List ℕ)
    → contains (kept_of ports ps) a ≡ (contains ps a && contains ports a)
unfolding kept_of
contains-kept_of a ports [] = refl
contains-kept_of a ports (p ∷ ps) = ground (arith, contains-kept_of a ports ps)

contains-left_of :
    (a : ℕ) (ports ps : List ℕ)
    → contains (left_of ports ps) a ≡ (contains ps a && not (contains ports a))
unfolding left_of
contains-left_of a ports [] = refl
contains-left_of a ports (p ∷ ps) = ground (arith, contains-left_of a ports ps)

-- The ports to try are the given ports, in another order.
pub contains-prefer_ports :
    (a : ℕ) (ports : List ℕ) → contains (prefer_ports ports) a ≡ contains ports a
unfolding prefer_ports
contains-prefer_ports a [] = refl
contains-prefer_ports a (p ∷ []) = refl
contains-prefer_ports a (p ∷ q ∷ ps) = ground (
  arith,
  contains-append a (kept_of (p ∷ q ∷ ps) common_http_ports)
      (left_of common_http_ports (p ∷ q ∷ ps)),
  contains-kept_of a (p ∷ q ∷ ps) common_http_ports,
  contains-left_of a common_http_ports (p ∷ q ∷ ps),
)

-- What the probe may answer: a port of the list at which something responds, or, where nothing
-- responds at any port of the list, none.
abbrev pub IsAnswer : (ℕ → Bool) → List ℕ → Option ℕ → Type 0
IsAnswer responds ports none = (a : ℕ) → contains ports a ≡ true → responds a ≡ false
IsAnswer responds ports (some p) = (contains ports p ≡ true) × (responds p ≡ true)

first_responding-some :
    (responds : ℕ → Bool) (ports : List ℕ) (p : ℕ)
    → first_responding responds ports ≡ some p
    → (contains ports p ≡ true) × (responds p ≡ true)
unfolding first_responding
first_responding-some responds [] p h = cc
first_responding-some responds (q ∷ ports) p h =
    ground (arith, h, first_responding-some responds ports p)

first_responding-none :
    (responds : ℕ → Bool) (ports : List ℕ) (a : ℕ)
    → first_responding responds ports ≡ none
    → contains ports a ≡ true
    → responds a ≡ false
unfolding first_responding
first_responding-none responds [] a h k = cc
first_responding-none responds (q ∷ ports) a h k =
    ground (arith, h, k, first_responding-none responds ports a)

probe_http_port-eq :
    (responds : Str → ℕ → Bool) (host : Str) (ports : List ℕ)
    → probe_http_port responds host ports ≡ first_responding (responds host) (prefer_ports ports)
unfolding probe_http_port
probe_http_port-eq responds host ports = refl

-- The probe answers with a port of the list that responds, and fails only if none of them does.
pub probe_http_port-IsAnswer :
    (responds : Str → ℕ → Bool) (host : Str) (ports : List ℕ)
    → IsAnswer (responds host) ports (probe_http_port responds host ports)
probe_http_port-IsAnswer responds host ports =
    answer (probe_http_port responds host ports) (sym (probe_http_port-eq responds host ports))
  where
    answer :
        (o : Option ℕ)
        → first_responding (responds host) (prefer_ports ports) ≡ o
        → IsAnswer (responds host) ports o
    answer none e = λ a h.
        first_responding-none (responds host) (prefer_ports ports) a e
          (contains-prefer_ports a ports ∙ h)
    answer (some p) e =
        let (i, r) = first_responding-some (responds host) (prefer_ports ports) p e in
        (sym (contains-prefer_ports p ports) ∙ i, r)

module _ (responds : ℕ → Bool) (p a : ℕ) (r : responds a ≡ true) where
  first_of_append :
      (xs ys : List ℕ)
      → contains xs a ≡ true
      → first_responding responds (xs ++ ys) ≡ some p
      → contains xs p ≡ true
  unfolding first_responding
  first_of_append [] ys h f = cc
  first_of_append (x ∷ xs) ys h f = ground (arith, h, f, r, first_of_append xs ys)

  preferred_common :
      (ps : List ℕ)
      → contains ps a ≡ true
      → contains common_http_ports a ≡ true
      → first_responding responds (prefer_ports ps) ≡ some p
      → contains common_http_ports p ≡ true
  unfolding prefer_ports
  preferred_common [] h c f = cc
  preferred_common (x ∷ []) h c f =
      ground (arith, h, c, first_responding-some responds (x ∷ []) p f)
  preferred_common (x ∷ y ∷ ps) h c f = ground (
    arith,
    contains-kept_of p (x ∷ y ∷ ps) common_http_ports,
    first_of_append (kept_of (x ∷ y ∷ ps) common_http_ports)
        (left_of common_http_ports (x ∷ y ∷ ps))
        (contains-kept_of a (x ∷ y ∷ ps) common_http_ports ∙ ground (arith, h, c)) f,
  )

-- If a common HTTP port of the list responds, the probe answers with a common HTTP port.
pub probe_http_port_common :
    (responds : Str → ℕ → Bool) (host : Str) (ports : List ℕ) (p a : ℕ)
    → probe_http_port responds host ports ≡ some p
    → contains ports a ≡ true
    → contains common_http_ports a ≡ true
    → responds host a ≡ true
    → contains common_http_ports p ≡ true
probe_http_port_common responds host ports p a e i c r =
    preferred_common (responds host) p a r ports i c
      (sym (probe_http_port-eq responds host ports) ∙ e)

-- What the selection of a port may make of an entry.
abbrev pub IsSelection : Config → (Str → ℕ → Bool) → ContainerInfo → ContainerInfo → Type 0
IsSelection cfg responds info new =
    (new ≡ info)
    ⊎ ((port : ℕ) × (new ≡ record info { selected_port = port })
        × (info.is_running ≡ true)
        × (get_label info.labels domains_label ≡ [])
        × (contains (map (effective_port info) info.ports) port ≡ true)
        × (responds (host_for cfg info) port ≡ true))

module _ (cfg : Config) (responds : Str → ℕ → Bool) (info : ContainerInfo) where
  probe_target-host : (probe_target cfg info).0 ≡ host_for cfg info
  unfolding probe_target
  probe_target-host = refl

  probe_target-ports : (probe_target cfg info).1 ≡ map (effective_port info) info.ports
  unfolding probe_target
  probe_target-ports = refl

  nil_of_empty : (l : Str) → not_empty l ≡ false → l ≡ []
  unfolding not_empty
  nil_of_empty [] h = refl
  nil_of_empty (c ∷ l) h = cc

  set_selected-IsSelection :
      (o : Option ℕ)
      → IsAnswer (responds (probe_target cfg info).0) (probe_target cfg info).1 o
      → info.is_running ≡ true
      → get_label info.labels domains_label ≡ []
      → IsSelection cfg responds info (set_selected o info)
  unfolding set_selected
  set_selected-IsSelection none h r l = inl refl
  set_selected-IsSelection (some port) h r l = inr (
    port,
    refl,
    r,
    l,
    ap (λ ps. contains ps port) (sym probe_target-ports) ∙ h.0,
    subst (λ s. responds s port ≡ true) probe_target-host h.1,
  )

  by_tests :
      (runs labelled ports : Bool)
      → info.is_running ≡ runs
      → not_empty (get_label info.labels domains_label) ≡ labelled
      → IsSelection cfg responds info (
          if not runs
          then info
          else if labelled
          then info
          else if not ports
          then info
          else set_selected
              (probe_http_port responds (probe_target cfg info).0 (probe_target cfg info).1)
              info)
  by_tests false l n r h = inl refl
  by_tests true true n r h = inl refl
  by_tests true false false r h = inl refl
  by_tests true false true r h =
      set_selected-IsSelection
        (probe_http_port responds (probe_target cfg info).0 (probe_target cfg info).1)
        (probe_http_port-IsAnswer responds (probe_target cfg info).0 (probe_target cfg info).1) r
        (nil_of_empty (get_label info.labels domains_label) h)

  -- The selection leaves an entry as it is or sets the selected port and nothing else; it does the
  -- latter only for a running container without a label of custom domains, to one of its effective
  -- ports, at which something responds on its host.
  pub select_one-IsSelection :
      IsSelection cfg responds info (select_one cfg (probe_http_port responds) info)
  unfolding select_one
  select_one-IsSelection =
      by_tests info.is_running (not_empty (get_label info.labels domains_label))
        (not_empty (probe_target cfg info).1) refl refl

-- The selection of ports works entry by entry and adds and removes none.
pub lookup-select_ports_locked :
    (cfg : Config) (responds : Str → ℕ → Bool) (id : Str) (m : Containers)
    → lookup id (select_ports_locked cfg (probe_http_port responds) m)
      ≡ Option.map (select_one cfg (probe_http_port responds)) (lookup id m)
unfolding select_ports_locked lookup
lookup-select_ports_locked cfg responds id [] = refl
lookup-select_ports_locked cfg responds id ((k, info) ∷ m) =
    ground (arith, lookup-select_ports_locked cfg responds id m)
