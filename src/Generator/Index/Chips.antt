-- ===== src/Generator/Index/Chips.antt =====
-- The domains of a row of the index page with their ports: `buildDomainEntry` and `sortDomainEntries`
-- of generator/index.go.
use caddy_dev_local.Base.{
  Bool, true, false, Option, none, some, List, [], ◌∷◌, ◌++◌, ◌==◌, list_eq, nat_eq, list_dec,
  nat_dec, ◌&&◌, if◌then◌else◌, map,
}
use caddy_dev_local.Base.Int.{ℤ, pos}
use caddy_dev_local.Base.Sort.{sort}
use caddy_dev_local.Str.{Str, codes}
use caddy_dev_local.Str.Atoi.{atoi, int_le}
use caddy_dev_local.Generator.{not_empty}

pub record PortChip : Type 0 where
  pub port_str : Str
  pub copy_text : Str
  pub is_http : Bool

pub record DomainEntry : Type 0 where
  pub domain : Str
  pub chips : List PortChip
  pub url : Str

-- `domain + ":" + p`
unfoldable pub chip : Str → Str → PortChip
chip domain p = record { port_str = p; copy_text = domain ++ (b':' ∷ p); is_http = false }

-- `if len(chips) == 0`
unfoldable pub or_dash : List PortChip → List PortChip
or_dash [] = record { port_str = codes "-"; copy_text = []; is_http = false } ∷ []
or_dash (c ∷ chips) = c ∷ chips

unfoldable pub build_domain_entry : Str → List Str → Str → DomainEntry
unfolding chip or_dash
build_domain_entry domain port_strs url = record {
  domain = domain;
  chips = or_dash (map (chip domain) port_strs);
  url = url;
}

unfoldable pub number_or_last : Option ℤ → ℤ
number_or_last none = pos 0x40000000
number_or_last (some n) = n

-- `1 << 30` where the text is no number
unfoldable pub port_num : Str → ℤ
unfolding atoi number_or_last
port_num s = number_or_last (atoi s)

module _ (http_port_str : Str) where
  unfoldable pub is_http_chip : PortChip → Bool
  unfolding not_empty nat_dec list_dec
  is_http_chip a = not_empty http_port_str && a.port_str == http_port_str

  -- The comparison is not positive.
  unfoldable pub chip_le : PortChip → PortChip → Bool
  unfolding is_http_chip port_num int_le
  chip_le a b =
      if is_http_chip a
      then if is_http_chip b then int_le (port_num a.port_str) (port_num b.port_str) else true
      else if is_http_chip b
      then false
      else int_le (port_num a.port_str) (port_num b.port_str)

  unfoldable pub mark_http : Str → PortChip → PortChip
  unfolding not_empty nat_dec list_dec
  mark_http url c =
      if not_empty http_port_str && not_empty url
      then record c { is_http = c.port_str == http_port_str }
      else c

  -- The body of the loop over the entries.
  unfoldable pub sort_chips : DomainEntry → DomainEntry
  unfolding sort chip_le mark_http
  sort_chips e = record e { chips = map (mark_http e.url) (sort chip_le e.chips) }

  unfoldable pub sort_domain_entries : List DomainEntry → List DomainEntry
  unfolding sort_chips
  sort_domain_entries = map sort_chips
