-- ===== src/Builder/Reading.antt =====
-- What a JSON value says under a key, wherever in it the key stands: a reading of the routes of
-- builder.go that does not follow how they are built.
use caddy_dev_local.Base.{
  ◌≡◌, refl, ap, Bool, true, false, List, [], ◌∷◌, ◌++◌, ◌==◌, nat_eq, list_eq, nat_dec, list_dec,
  if◌then◌else◌, append-nil,
}
use caddy_dev_local.Str.{Str, codes}
use caddy_dev_local.Builder.{
  Json, null, text, flag, number, array, object, Items, no_items, item, Fields, no_fields, field,
  upstreams, proxy_handler, subroute, tracing_handler, handlers, reverse_proxy_route,
}

-- A text, or the texts of an array.
abbrev item_texts : Items → List Str
item_texts no_items = []
item_texts (item (text s) xs) = s ∷ item_texts xs
item_texts (item _ xs) = item_texts xs

abbrev value_texts : Json → List Str
value_texts (text s) = s ∷ []
value_texts (array xs) = item_texts xs
value_texts _ = []

mutual
  -- The texts under the key.
  pub under : Str → Json → List Str
  under key (array xs) = under_items key xs
  under key (object m) = under_fields key m
  under key null = []
  under key (text s) = []
  under key (flag b) = []
  under key (number n) = []

  under_items : Str → Items → List Str
  under_items key no_items = []
  under_items key (item j xs) = under key j ++ under_items key xs

  under_fields : Str → Fields → List Str
  under_fields key no_fields = []
  under_fields key (field k v m) =
      (if key == k then value_texts v else []) ++ (under key v ++ under_fields key m)

under-upstreams : (ts : List Str) → under_items (codes "dial") (upstreams ts) ≡ ts
unfolding upstreams under under_items under_fields nat_dec list_dec
under-upstreams [] = refl
under-upstreams (t ∷ ts) = ap (◌∷◌ t) (under-upstreams ts)

pub dials-reverse_proxy_route :
    (host : Str) (targets : List Str) (tracing : Bool)
    → under (codes "dial") (reverse_proxy_route host targets tracing) ≡ targets
unfolding reverse_proxy_route handlers subroute proxy_handler tracing_handler under under_items
    under_fields nat_dec list_dec
dials-reverse_proxy_route host targets true = simp (append-nil, under-upstreams targets)
dials-reverse_proxy_route host targets false = simp (append-nil, under-upstreams targets)

no_hosts-upstreams : (ts : List Str) → under_items (codes "host") (upstreams ts) ≡ []
unfolding upstreams under under_items under_fields nat_dec list_dec
no_hosts-upstreams [] = refl
no_hosts-upstreams (t ∷ ts) = no_hosts-upstreams ts

pub hosts-reverse_proxy_route :
    (host : Str) (targets : List Str) (tracing : Bool)
    → under (codes "host") (reverse_proxy_route host targets tracing) ≡ host ∷ []
unfolding reverse_proxy_route handlers subroute proxy_handler tracing_handler under under_items
    under_fields nat_dec list_dec
hosts-reverse_proxy_route host targets true = rw (no_hosts-upstreams targets) refl
hosts-reverse_proxy_route host targets false = rw (no_hosts-upstreams targets) refl
