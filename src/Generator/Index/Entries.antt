-- ===== src/Generator/Index/Entries.antt =====
-- The order of the ports of a domain on the page of generator/index.go, and the escaped configuration.
use mathlib.Core.List.{Permᴰ}
use mathlib.Core.List.Permᴰ
use mathlib.Core.Path.{subst}
use caddy_dev_local.Base.{
  ℕ, ◌≡◌, ◌≢◌, refl, sym, ◌∙◌, Bool, true, false, List, [], ◌∷◌, ◌==◌, list_eq, nat_eq, ◌||◌, ◌&&◌,
  arith, All, All-append, map, Bool-cases, inl, inr,
}
use caddy_dev_local.Base.Int.{ℤ, pos, negsuc}
use caddy_dev_local.Base.Sort.{sort, insert_sorted, sort-perm, IsSorted, sort-IsSorted, sort-All}
use caddy_dev_local.Str.{Str, Lacks, codes}
use caddy_dev_local.Str.Atoi.{int_le}
use caddy_dev_local.Generator.{not_empty}
use caddy_dev_local.Generator.Index.{replace_all, escaped}
use caddy_dev_local.Generator.Index.Chips.{
  PortChip, DomainEntry, is_http_chip, chip_le, mark_http, sort_chips, port_num,
}

int_le_total : (a b : ℤ) → int_le a b ≡ false → int_le b a ≡ true
unfolding int_le
int_le_total (pos a) (pos b) h = ground arith
int_le_total (pos a) (negsuc b) h = refl
int_le_total (negsuc a) (pos b) h = cc
int_le_total (negsuc a) (negsuc b) h = ground arith

module _ (http : Str) where
  chip_le_total : (a b : PortChip) → chip_le http a b ≡ false → chip_le http b a ≡ true
  unfolding chip_le
  chip_le_total a b h = ground (arith, h, int_le_total (port_num a.port_str) (port_num b.port_str))

  abbrev pub has_http : List PortChip → Bool
  has_http [] = false
  has_http (c ∷ cs) = is_http_chip http c || has_http cs

  abbrev pub starts_http : List PortChip → Bool
  starts_http [] = false
  starts_http (c ∷ cs) = is_http_chip http c

  starts_http-insert :
      (c : PortChip) (cs : List PortChip)
      → starts_http (insert_sorted (chip_le http) c cs) ≡ (is_http_chip http c || starts_http cs)
  unfolding insert_sorted chip_le
  starts_http-insert c [] = ground arith
  starts_http-insert c (x ∷ cs) = ground arith

  starts_http-sort : (cs : List PortChip) → starts_http (sort (chip_le http) cs) ≡ has_http cs
  unfolding sort
  starts_http-sort [] = refl
  starts_http-sort (c ∷ cs) =
      ground (arith, starts_http-insert c (sort (chip_le http) cs), starts_http-sort cs)

  port_str-mark_http : (url : Str) (c : PortChip) → (mark_http http url c).port_str ≡ c.port_str
  unfolding mark_http
  port_str-mark_http url c = ground arith

  is_http_chip-mark_http :
      (url : Str) (c : PortChip) → is_http_chip http (mark_http http url c) ≡ is_http_chip http c
  unfolding is_http_chip
  is_http_chip-mark_http url c = rw (port_str-mark_http url c) refl

  starts_http-map :
      (url : Str) (cs : List PortChip) → starts_http (map (mark_http http url) cs) ≡ starts_http cs
  starts_http-map url [] = refl
  starts_http-map url (c ∷ cs) = is_http_chip-mark_http url c

  chip_le-mark_http :
      (url : Str) (a b : PortChip)
      → chip_le http (mark_http http url a) (mark_http http url b) ≡ chip_le http a b
  unfolding chip_le
  chip_le-mark_http url a b =
      rw
        (
          is_http_chip-mark_http url a,
          is_http_chip-mark_http url b,
          port_str-mark_http url a,
          port_str-mark_http url b,
        )
        refl

  map-IsSorted :
      (url : Str) (cs : List PortChip)
      → IsSorted (chip_le http) cs
      → IsSorted (chip_le http) (map (mark_http http url) cs)
  map-IsSorted url [] s = tt
  map-IsSorted url (c ∷ []) s = tt
  map-IsSorted url (c ∷ x ∷ cs) s = (chip_le-mark_http url c x ∙ s.0, map-IsSorted url (x ∷ cs) s.1)

  map-port_str :
      (url : Str) (cs : List PortChip)
      → map (λ c. c.port_str) (map (mark_http http url) cs) ≡ map (λ c. c.port_str) cs
  map-port_str url [] = refl
  map-port_str url (c ∷ cs) = cc (port_str-mark_http url c, map-port_str url cs)

  map-marked :
      (url : Str) (cs : List PortChip)
      → All (λ c. c.is_http ≡ false) cs
      → All (λ c. c.is_http ≡ (not_empty url && is_http_chip http c)) (map (mark_http http url) cs)
  map-marked url [] h = tt
  map-marked url (c ∷ cs) h =
      (unfold mark_http is_http_chip in ground (arith, h.0), map-marked url cs h.1)

  -- The ports of a domain are in order: the HTTP port first wherever it stands, the others by their
  -- number. Each port is still there. If no port was marked before, the HTTP port is marked just if the
  -- domain has a URL, and no other port is.
  pub sort_chips-IsOrdered :
      (e : DomainEntry)
      → All (λ c. c.is_http ≡ false) e.chips
      → (starts_http (sort_chips http e).chips ≡ has_http e.chips)
        × IsSorted (chip_le http) (sort_chips http e).chips
        × Permᴰ (map (λ c. c.port_str) (sort_chips http e).chips) (map (λ c. c.port_str) e.chips)
        × All (λ c. c.is_http ≡ (not_empty e.url && is_http_chip http c)) (sort_chips http e).chips
  unfolding sort_chips
  sort_chips-IsOrdered e h = (
    starts_http-map e.url (sort (chip_le http) e.chips) ∙ starts_http-sort e.chips,
    map-IsSorted e.url (sort (chip_le http) e.chips)
        (sort-IsSorted (chip_le http) chip_le_total e.chips),
    subst (λ l. Permᴰ l (map (λ c. c.port_str) e.chips))
        (sym (map-port_str e.url (sort (chip_le http) e.chips)))
        (Permᴰ.map (λ c. c.port_str) (sort-perm (chip_le http) e.chips)),
    map-marked e.url (sort (chip_le http) e.chips)
        (sort-All (λ c. c.is_http ≡ false) (chip_le http) e.chips h),
  )

replace_all-Lacks : (b : ℕ) (new s : Str) → Lacks b new → Lacks b (replace_all b new s)
unfolding replace_all
replace_all-Lacks b new [] h = tt
replace_all-Lacks b new (c ∷ s) h = elim (Bool-cases (c == b)) [
  | inl e ↦ rw e (All-append (λ x. x ≢ b) new (replace_all b new s) h (replace_all-Lacks b new s h))
  | inr e ↦ rw e (ground (arith, e), replace_all-Lacks b new s h)
]

replace_all_keeps-Lacks :
    (a b : ℕ) (new s : Str) → Lacks b new → Lacks b s → Lacks b (replace_all a new s)
unfolding replace_all
replace_all_keeps-Lacks a b new [] h k = tt
replace_all_keeps-Lacks a b new (c ∷ s) h k = elim (Bool-cases (c == a)) [
  | inl e ↦ rw e (
      All-append (λ x. x ≢ b) new (replace_all a new s) h (replace_all_keeps-Lacks a b new s h k.1))
  | inr e ↦ rw e (k.0, replace_all_keeps-Lacks a b new s h k.1)
]

-- The text put into the script when the configuration is no JSON holds no `<`, no `>` and no `&`.
pub escaped-Lacks :
    (s : Str) → Lacks b'<' (escaped s) × Lacks b'>' (escaped s) × Lacks b'&' (escaped s)
unfolding escaped
escaped-Lacks s =
    let amp : Str = replace_all b'&' (codes "\\u0026") s in
    let lt : Str = replace_all b'<' (codes "\\u003c") amp in
    (
      replace_all_keeps-Lacks b'>' b'<' (codes "\\u003e") lt (omega arith)
          (replace_all-Lacks b'<' (codes "\\u003c") amp (omega arith)),
      replace_all-Lacks b'>' (codes "\\u003e") lt (omega arith),
      replace_all_keeps-Lacks b'>' b'&' (codes "\\u003e") lt (omega arith) (
          replace_all_keeps-Lacks b'<' b'&' (codes "\\u003c") amp (omega arith)
            (replace_all-Lacks b'&' (codes "\\u0026") s (omega arith))),
    )
