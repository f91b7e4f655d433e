-- ===== src/Generator/Build/Laws.antt =====
-- What is kept of the ports of a listed container.
use caddy_dev_local.Base.{
  ℕ, ◌≡◌, refl, ap, ◌∙◌, Bool, false, Option, some, List, [], ◌∷◌, ◌++◌, ◌==◌, nat_eq, ◌||◌, leb,
  if◌then◌else◌, contains, arith,
}
use caddy_dev_local.Base.Dict.{Dict, lookup, insert, lookup-insert}
use caddy_dev_local.Base.Sort.{IsSorted, sort-IsSorted}
use caddy_dev_local.Base.Distinct.{Nodup, contains-append, snoc-Nodup, contains-sort, sort-Nodup}
use caddy_dev_local.Str.Order.{nat_le-IsLinear}
use caddy_dev_local.Docker.{Port, Summary}
use caddy_dev_local.Generator.Build.{distinct_ports, extract_ports, published}

-- Some port of the list has the private number.
abbrev pub has_private : ℕ → List Port → Bool
has_private n [] = false
has_private n (p ∷ ps) = n == p.private_port || has_private n ps

-- The public number of the last port that has the private number and is published.
abbrev pub last_published : ℕ → Option ℕ → List Port → Option ℕ
last_published n found [] = found
last_published n found (p ∷ ps) =
    last_published n
      (if p.public_port == 0
        then found
        else if n == p.private_port
        then some p.public_port
        else found)
      ps

distinct_ports-Nodup :
    (seen : List ℕ) (ps : List Port) → Nodup seen → Nodup (distinct_ports seen ps)
unfolding distinct_ports
distinct_ports-Nodup seen [] u = u
distinct_ports-Nodup seen (p ∷ ps) u =
    distinct_ports-Nodup
      (if contains seen p.private_port then seen else seen ++ p.private_port ∷ []) ps
      (ground (arith, u, snoc-Nodup seen p.private_port))

contains-distinct_ports :
    (n : ℕ) (seen : List ℕ) (ps : List Port)
    → contains (distinct_ports seen ps) n ≡ (contains seen n || has_private n ps)
unfolding distinct_ports
contains-distinct_ports n seen [] = ground arith
contains-distinct_ports n seen (p ∷ ps) =
    contains-distinct_ports n
      (if contains seen p.private_port then seen else seen ++ p.private_port ∷ []) ps
    ∙ ground (arith, contains-append n seen (p.private_port ∷ []))

-- The ports that are extracted are in order, none stands twice, and they are the private ports of
-- the container.
pub extract_ports-IsSorted :
    (c : Summary)
    → IsSorted leb (extract_ports c)
      × Nodup (extract_ports c)
      × ((n : ℕ) → contains (extract_ports c) n ≡ has_private n c.ports)
unfolding extract_ports
extract_ports-IsSorted c = (
  sort-IsSorted leb nat_le-IsLinear.total (distinct_ports [] c.ports),
  sort-Nodup leb (distinct_ports [] c.ports) (distinct_ports-Nodup [] c.ports tt),
  λ n. contains-sort leb n (distinct_ports [] c.ports) ∙ contains-distinct_ports n [] c.ports,
)

-- Under a private port the map of published ports holds the public number of the last listed port
-- that has one; a port that is not published is no key.
pub lookup-published :
    (n : ℕ) (m : Dict ℕ ℕ) (ps : List Port)
    → lookup n (published m ps) ≡ last_published n (lookup n m) ps
unfolding published
lookup-published n m [] = refl
lookup-published n m (p ∷ ps) =
    lookup-published n (if p.public_port == 0 then m else insert p.private_port p.public_port m) ps
    ∙ ap (λ o. last_published n o ps)
        (ground (arith, lookup-insert n p.private_port p.public_port m))
