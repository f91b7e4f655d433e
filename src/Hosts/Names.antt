-- ===== src/Hosts/Names.antt =====
-- Which names the written block resolves, and that their order and number do not matter.
use mathlib.Core.Path.{subst}
use mathlib.Core.List.{Permᴰ}
use caddy_dev_local.Base.{
  ◌≡◌, sym, ap, ◌∙◌, true, List, [], ◌∷◌, ◌++◌, arith, ◌⊎◌, ◌↔◌, inl, inr, list_eq, nat_eq, In,
  In-append, In-append_left, In-append_right, contains,
}
use caddy_dev_local.Base.Sort.{sort, In-sort, sort-eq_of_perm}
use caddy_dev_local.Str.{Str, str_le}
use caddy_dev_local.Str.Order.{str_le-IsLinear}
use caddy_dev_local.Tld.{tld_localhost}
use caddy_dev_local.Hosts.{
  Disk, Faults, end_marker, host_line, domain_lines, alias_lines, block_lines, build_block,
  sync_to_file,
}

host_line_injective : (a b : Str) → host_line a ≡ host_line b → a ≡ b
host_line_injective a b h = cc

contains→In : (xs : List Str) (a : Str) → contains xs a ≡ true → In a xs
contains→In [] a h = cc
contains→In (x ∷ xs) a h = ground (arith, contains→In xs a)

In→contains : (xs : List Str) (a : Str) → In a xs → contains xs a ≡ true
In→contains [] a h = absurd h
In→contains (x ∷ xs) a h = ground (arith, In→contains xs a)

In-domain_lines : (tld n : Str) (ds : List Str) → In (host_line n) (domain_lines tld ds) → In n ds
unfolding domain_lines
In-domain_lines tld n [] h = h
In-domain_lines tld n (d ∷ ds) h = ground (arith, In-domain_lines tld n ds, host_line_injective n d)

domain_lines-In :
    (tld n : Str) (ds : List Str) → In n ds → (n ≡ tld) ⊎ In (host_line n) (domain_lines tld ds)
unfolding domain_lines
domain_lines-In tld n [] h = absurd h
domain_lines-In tld n (d ∷ ds) h = ground (arith, domain_lines-In tld n ds)

In-alias_lines :
    (tld n : Str) (ds : List Str) → In (host_line n) (alias_lines tld ds) → n ≡ tld_localhost tld
unfolding alias_lines
In-alias_lines tld n ds h = ground (arith, host_line_injective n (tld_localhost tld))

alias_lines-In :
    (tld : Str) (ds : List Str)
    → (tld_localhost tld ≡ tld)
      ⊎ (In (tld_localhost tld) ds ⊎ In (host_line (tld_localhost tld)) (alias_lines tld ds))
unfolding alias_lines
alias_lines-In tld ds = ground (arith, contains→In ds (tld_localhost tld))

abbrev Named : Str → List Str → Str → Type 0
Named tld domains n = (n ≡ tld) ⊎ ((n ≡ tld_localhost tld) ⊎ In n domains)

module _ (tld : Str) (domains : List Str) (n : Str) where
  abbrev sorted : List Str
  sorted = sort str_le domains

  domain-In :
      (n ≡ tld) ⊎ In (host_line n) (domain_lines tld sorted)
      → In (host_line n) (block_lines tld domains)
  unfolding block_lines
  domain-In (inl e) = inr (inr (inl (ap host_line e)))
  domain-In (inr h) = inr (
      inr (
        inr (
          In-append_right (host_line n) (alias_lines tld sorted)
            (domain_lines tld sorted ++ end_marker ∷ [])
            (In-append_left (host_line n) (domain_lines tld sorted) (end_marker ∷ []) h))))

  alias_line :
      In (host_line n) (alias_lines tld sorted) → In (host_line n) (block_lines tld domains)
  unfolding block_lines
  alias_line h = inr (
      inr (
        inr (
          In-append_left (host_line n) (alias_lines tld sorted)
            (domain_lines tld sorted ++ end_marker ∷ []) h)))

  alias-In :
      n ≡ tld_localhost tld
      → (tld_localhost tld ≡ tld)
        ⊎ (In (tld_localhost tld) sorted
            ⊎ In (host_line (tld_localhost tld)) (alias_lines tld sorted))
      → In (host_line n) (block_lines tld domains)
  alias-In e (inl h) = domain-In (inl (e ∙ h))
  alias-In e (inr (inl h)) =
      domain-In (domain_lines-In tld n sorted (subst (λ m. In m sorted) (sym e) h))
  alias-In e (inr (inr h)) =
      alias_line (subst (λ m. In (host_line m) (alias_lines tld sorted)) (sym e) h)

  Named-In : Named tld domains n → In (host_line n) (block_lines tld domains)
  Named-In (inl e) = domain-In (inl e)
  Named-In (inr (inl e)) = alias-In e (alias_lines-In tld sorted)
  Named-In (inr (inr h)) = domain-In (domain_lines-In tld n sorted ((In-sort str_le n domains).1 h))

  tail-Named :
      In (host_line n) (domain_lines tld sorted) ⊎ In (host_line n) (end_marker ∷ [])
      → Named tld domains n
  tail-Named (inl h) = inr (inr ((In-sort str_le n domains).0 (In-domain_lines tld n sorted h)))
  tail-Named (inr (inl e)) = absurd (ground arith)
  tail-Named (inr (inr h)) = absurd h

  rest-Named :
      In (host_line n) (alias_lines tld sorted)
        ⊎ In (host_line n) (domain_lines tld sorted ++ end_marker ∷ [])
      → Named tld domains n
  rest-Named (inl h) = inr (inl (In-alias_lines tld n sorted h))
  rest-Named (inr h) =
      tail-Named (In-append (host_line n) (domain_lines tld sorted) (end_marker ∷ []) h)

  In-Named : In (host_line n) (block_lines tld domains) → Named tld domains n
  unfolding block_lines
  In-Named (inl e) = absurd (ground arith)
  In-Named (inr (inl e)) = absurd (ground arith)
  In-Named (inr (inr (inl e))) = inl (host_line_injective n tld e)
  In-Named (inr (inr (inr h))) = rest-Named (
      In-append (host_line n) (alias_lines tld sorted) (domain_lines tld sorted ++ end_marker ∷ [])
        h)

-- The block has a line for a name just if the name is the TLD, the `.localhost` name of the TLD, or
-- one of the domains.
pub In-block_lines :
    (tld : Str) (domains : List Str) (n : Str)
    → In (host_line n) (block_lines tld domains)
      ↔ ((n ≡ tld) ⊎ ((n ≡ tld_localhost tld) ⊎ In n domains))
In-block_lines tld domains n = (In-Named tld domains n, Named-In tld domains n)

build_block-perm :
    (tld : Str) {xs ys : List Str} → Permᴰ xs ys → build_block tld xs ≡ build_block tld ys
unfolding build_block
build_block-perm tld p = rw (sort-eq_of_perm str_le str_le-IsLinear p)

-- A sync does not depend on the order in which the domains are listed, whichever calls fail.
pub sync_to_file-perm :
    (f : Faults) (tld : Str) {xs ys : List Str} (d : Disk)
    → Permᴰ xs ys
    → sync_to_file f tld xs d ≡ sync_to_file f tld ys d
unfolding sync_to_file
sync_to_file-perm f tld d p = ground (arith, build_block-perm tld p)
