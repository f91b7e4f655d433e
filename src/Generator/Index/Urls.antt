-- ===== src/Generator/Index/Urls.antt =====
-- What the rows of the page of generator/index.go link to: the URLs of their entries.
use mathlib.Core.List
use caddy_dev_local.Base.{
  Bool, ==_iff, ◌==◌, ltb, if◌then◌else◌, ◌≡◌, refl, sym, ap, ◌∙◌, true, false, List, [], ◌∷◌, ◌++◌,
  list_eq, nat_eq, ◌||◌, ◌&&◌, ◌⊎◌, inl, inr, contains, arith, All, Bool-cases, map, filter,
  flat_map,
}
use caddy_dev_local.Str.{Str, codes}
use caddy_dev_local.Generator.{CustomDomain, ContainerInfo, not_empty}
use caddy_dev_local.Generator.Index.Chips.{
  DomainEntry, sort_chips, sort_domain_entries, build_domain_entry,
}
use caddy_dev_local.Generator.Index.Rows.{
  row_entries, entries_by, custom_entry, own_entry, own_domain, own_localhost_domain, url_if,
  http_port_str,
}

-- The domains of the entries that have a URL.
abbrev pub linked : List DomainEntry → List Str
linked es = map (λ e. e.domain) (filter (λ e. not_empty e.url) es)

-- Their URLs.
abbrev pub urls : List DomainEntry → List Str
urls es = map (λ e. e.url) (filter (λ e. not_empty e.url) es)

pub linked-sort_domain_entries :
    (h : Str) (es : List DomainEntry) → linked (sort_domain_entries h es) ≡ linked es
unfolding sort_domain_entries sort_chips
linked-sort_domain_entries h [] = refl
linked-sort_domain_entries h (e ∷ es) = ground (arith, linked-sort_domain_entries h es)

-- The domains in the rows of the containers that have a URL.
abbrev pub linked_domains : Str → List ContainerInfo → List Str
linked_domains tld = flat_map (λ info. linked (row_entries tld info))

-- What the rows of the containers link to.
abbrev pub page_links : Str → List ContainerInfo → List Str
page_links tld = flat_map (λ info. urls (row_entries tld info))

abbrev pub https : Str → Str
https domain = codes "https://" ++ domain

urls-sort_domain_entries :
    (h : Str) (es : List DomainEntry) → urls (sort_domain_entries h es) ≡ urls es
unfolding sort_domain_entries sort_chips
urls-sort_domain_entries h [] = refl
urls-sort_domain_entries h (e ∷ es) = ground (arith, urls-sort_domain_entries h es)

-- The URL of the entry is that of its domain, if it has one.
abbrev LinksToDomain : DomainEntry → Type 0
LinksToDomain e = (e.url ≡ []) ⊎ (e.url ≡ https e.domain)

url_if-LinksToDomain : (b : Bool) (d : Str) → (url_if b d ≡ []) ⊎ (url_if b d ≡ https d)
unfolding url_if
url_if-LinksToDomain true d = inr refl
url_if-LinksToDomain false d = inl refl

custom-LinksToDomain :
    (info : ContainerInfo) (cds : List CustomDomain)
    → All LinksToDomain (map (custom_entry info) cds)
unfolding custom_entry
custom-LinksToDomain info [] = tt
custom-LinksToDomain info (cd ∷ cds) =
    (url_if-LinksToDomain info.is_running cd.domain, custom-LinksToDomain info cds)

own-LinksToDomain : (info : ContainerInfo) (d : Str) → LinksToDomain (own_entry info d)
unfolding own_entry build_domain_entry
own-LinksToDomain info d = url_if-LinksToDomain (info.is_running && ltb 0 info.selected_port) d

own_if-LinksToDomain :
    (b : Bool) (info : ContainerInfo) (d e : Str)
    → All LinksToDomain (if b then own_entry info d ∷ own_entry info e ∷ [] else [])
own_if-LinksToDomain true info d e = (own-LinksToDomain info d, (own-LinksToDomain info e, tt))
own_if-LinksToDomain false info d e = tt

entries_by-LinksToDomain :
    (cds : List CustomDomain) (tld : Str) (info : ContainerInfo)
    → All LinksToDomain (entries_by cds tld info)
unfolding entries_by
entries_by-LinksToDomain [] tld info =
    own_if-LinksToDomain (not_empty info.ports) info (own_domain info tld)
      (own_localhost_domain info)
entries_by-LinksToDomain (cd ∷ cds) tld info = custom-LinksToDomain info (cd ∷ cds)

urls-linked : (es : List DomainEntry) → All LinksToDomain es → urls es ≡ map https (linked es)
unfolding not_empty
urls-linked [] h = refl
urls-linked (e ∷ es) h = ground (arith, h.0, urls-linked es h.1)

row-urls :
    (tld : Str) (info : ContainerInfo)
    → urls (row_entries tld info) ≡ map https (linked (row_entries tld info))
unfolding row_entries
row-urls tld info =
    urls-sort_domain_entries (http_port_str info) (entries_by info.custom_domains tld info)
    ∙ (urls-linked (entries_by info.custom_domains tld info)
          (entries_by-LinksToDomain info.custom_domains tld info)
        ∙ ap (map https) (
            sym (
              linked-sort_domain_entries (http_port_str info)
                (entries_by info.custom_domains tld info))))

map-append {ℓ κ} :
    {A : Type ℓ} {B : Type κ} (f : A → B) (xs ys : List A) → map f (xs ++ ys) ≡ map f xs ++ map f ys
map-append f [] ys = refl
map-append f (x ∷ xs) ys = ap (◌∷◌ (f x)) (map-append f xs ys)

pub page_links-linked :
    (tld : Str) (infos : List ContainerInfo)
    → page_links tld infos ≡ map https (linked_domains tld infos)
page_links-linked tld [] = refl
page_links-linked tld (info ∷ infos) =
    rw (row-urls tld info, page_links-linked tld infos)
      (sym (map-append https (linked (row_entries tld info)) (linked_domains tld infos)))

https_eq : (d e : Str) → (https d == https e) ≡ (d == e)
https_eq d e = elim (Bool-cases (d == e)) [
  | inl h ↦ (==_iff (https d) (https e)).1 (ap https ((==_iff d e).0 h)) ∙ sym h
  | inr h ↦ elim (Bool-cases (https d == https e)) [
    | inl k ↦
        let same : d ≡ e =
          List.append_cancel_left (codes "https://") d e ((==_iff (https d) (https e)).0 k) in
        absurd (cc (h, (==_iff d e).1 same))
    | inr k ↦ k ∙ sym h
  ]
]

pub contains-https : (ds : List Str) (d : Str) → contains (map https ds) (https d) ≡ contains ds d
contains-https [] d = refl
contains-https (e ∷ ds) d =
    ap (λ b. b || contains (map https ds) (https d)) (https_eq d e)
    ∙ ap (λ b. (d == e) || b) (contains-https ds d)

pub https-All : (ds : List Str) → All (λ u. (d : Str) × (u ≡ https d)) (map https ds)
https-All [] = tt
https-All (d ∷ ds) = ((d, refl), https-All ds)
