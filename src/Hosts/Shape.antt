-- ===== src/Hosts/Shape.antt =====
-- The written block as lines of one line each, and as what is read back.
use mathlib.Core.Path.{subst}
use mathlib.Core.List.{cons-ne-nil}
use caddy_dev_local.Base.{
  ◌≡◌, ◌≢◌, refl, sym, ap, ◌∙◌, false, List, [], ◌∷◌, ◌++◌, arith, All, inl, inr, Bool-cases,
  All-append, ◌==◌, ◌&&◌, not, nat_eq, list_eq, contains,
}
use caddy_dev_local.Base.Sort.{sort, sort-All}
use caddy_dev_local.Str.{Str, Lacks, codes, newline, split, join, str_le}
use caddy_dev_local.Str.Lines.{split-All}
use caddy_dev_local.Tld.{tld_localhost, first_part, localhost_suffix}
use caddy_dev_local.Tld.Laws.{tld_localhost_cases}
use caddy_dev_local.Hosts.{
  begin_marker, end_marker, managed_line, host_line, domain_lines, alias_lines, block_lines,
  lines_text, build_block, marked_lines, joined_block, block_of,
}
use caddy_dev_local.Hosts.Text.{IsPlain}
use caddy_dev_local.Hosts.Block.{block_lines-eq, marked-written, lines_text-join}

first_part-All {ℓ} : (P : Str → Type ℓ) (ps : List Str) → P [] → All P ps → P (first_part ps)
unfolding first_part
first_part-All P [] h k = h
first_part-All P (p ∷ ps) h k = k.0

suffix-Lacks : Lacks newline localhost_suffix
suffix-Lacks = omega arith

host_line-Lacks : (name : Str) → Lacks newline name → Lacks newline (host_line name)
host_line-Lacks name h = All-append (λ c. c ≢ newline) (codes "127.0.0.1    ") name (omega arith) h

-- The alias of a one-line name is a one-line name.
pub tld_localhost-Lacks : (tld : Str) → Lacks newline tld → Lacks newline (tld_localhost tld)
tld_localhost-Lacks tld h = elim (tld_localhost_cases tld) [
  | inl e ↦ subst (Lacks newline) (sym e) h
  | inr e ↦ subst (Lacks newline) (sym e) (
      All-append (λ c. c ≢ newline) (first_part (split b'.' tld)) localhost_suffix
        (first_part-All (Lacks newline) (split b'.' tld) tt
          (split-All (λ c. c ≢ newline) b'.' tld h))
        suffix-Lacks)
]

domain_lines-Lacks :
    (tld : Str) (ds : List Str) → All (Lacks newline) ds → All (Lacks newline) (domain_lines tld ds)
unfolding domain_lines
domain_lines-Lacks tld [] h = tt
domain_lines-Lacks tld (d ∷ ds) h = elim (Bool-cases (d == tld)) [
  | inl e ↦ rw e (domain_lines-Lacks tld ds h.1)
  | inr e ↦ rw e (host_line-Lacks d h.0, domain_lines-Lacks tld ds h.1)
]

alias_lines-Lacks :
    (tld : Str) (ds : List Str) → Lacks newline tld → All (Lacks newline) (alias_lines tld ds)
unfolding alias_lines
alias_lines-Lacks tld ds h =
    elim (Bool-cases (not (tld_localhost tld == tld) && not (contains ds (tld_localhost tld)))) [
      | inl e ↦ rw e (host_line-Lacks (tld_localhost tld) (tld_localhost-Lacks tld h), tt)
      | inr e ↦ rw e tt
    ]

markers-Lacks : Lacks newline begin_marker × (Lacks newline managed_line × Lacks newline end_marker)
markers-Lacks = omega arith

pub joined_block-join :
    (ls : List Str) → ls ≢ [] → joined_block ls ≡ join newline ls ++ newline ∷ []
unfolding joined_block
joined_block-join [] h = absurd (h refl)
joined_block-join (l ∷ ls) h = refl

lines_text-eq : (ls : List Str) → ls ≢ [] → lines_text ls ≡ join newline ls ++ newline ∷ []
lines_text-eq [] h = absurd (h refl)
lines_text-eq (l ∷ ls) h = lines_text-join l ls

module _ (tld : Str) (domains : List Str) where
  pub lines-ne-nil : block_lines tld domains ≢ []
  lines-ne-nil = subst (λ l. l ≢ []) (sym (block_lines-eq tld domains)) (cons-ne-nil _ _)

  pub build_block-join :
      build_block tld domains ≡ join newline (block_lines tld domains) ++ newline ∷ []
  build_block-join =
      ◌∙◌ {b = lines_text (block_lines tld domains)} (unfold build_block in refl)
        (lines_text-eq (block_lines tld domains) lines-ne-nil)

  -- A file whose lines are the written block between plain lines holds just that block.
  pub block_of-written :
      (c : Str) (before after : List Str)
      → All IsPlain before
      → All IsPlain after
      → split newline c ≡ before ++ (block_lines tld domains ++ after)
      → block_of c ≡ build_block tld domains
  block_of-written c before after hb ha e =
      ◌∙◌ {b = joined_block (marked_lines false (split newline c))} (unfold block_of in refl) (
        ap (λ l. joined_block (marked_lines false l)) e
        ∙ (ap joined_block (marked-written tld domains before after hb ha)
            ∙ (joined_block-join (block_lines tld domains) lines-ne-nil ∙ sym build_block-join)))

  pub block_lines-Lacks :
      Lacks newline tld
      → All (Lacks newline) domains
      → All (Lacks newline) (block_lines tld domains)
  block_lines-Lacks ht hd =
      let sorted : List Str = sort str_le domains in
      unfold block_lines in
      (
        markers-Lacks.0,
        (
          markers-Lacks.1.0,
          (
            host_line-Lacks tld ht,
            All-append (Lacks newline) (alias_lines tld sorted)
                (domain_lines tld sorted ++ end_marker ∷ []) (alias_lines-Lacks tld sorted ht)
                (All-append (Lacks newline) (domain_lines tld sorted) (end_marker ∷ [])
                  (domain_lines-Lacks tld sorted (sort-All (Lacks newline) str_le domains hd))
                  (markers-Lacks.1.1, tt)),
          ),
        ),
      )
