-- ===== src/Hosts/Content.antt =====
-- The lines of the content that `syncToFile` writes, and of the content that `removeFromFile` leaves.
use mathlib.Core.Path.{subst}
use mathlib.Core.List.{cons-ne-nil}
use caddy_dev_local.Base.{
  ℕ, ◌≡◌, ◌≢◌, refl, sym, ap, ◌∙◌, false, List, [], ◌∷◌, ◌++◌, append_assoc, append-nil, All,
  nat_eq, nat_dec,
}
use caddy_dev_local.Str.{Str, Lacks, newline, split, join, trim_right}
use caddy_dev_local.Str.Lines.{split-join, split-append, join-append, join_nested, append-ne-nil}
use caddy_dev_local.Str.Trim.{trim_right-append_kept, trim_right-append_nil}
use caddy_dev_local.Hosts.{
  begin_marker, end_marker, is_newline, block_lines, build_block, replacement, replaced_lines,
  end_line, replace_block,
}
use caddy_dev_local.Hosts.Text.{IsPlain, trim_newlines-IsPlain}
use caddy_dev_local.Hosts.Block.{HasBlock, block_body, block_lines-eq, replaced-block}
use caddy_dev_local.Hosts.Shape.{build_block-join, lines-ne-nil}

-- A text that ends with an end marker loses nothing to the trimming of newlines.
trim-end_marker :
    (s : Str) → trim_right is_newline (s ++ (newline ∷ end_marker)) ≡ s ++ (newline ∷ end_marker)
unfolding nat_dec trim_right
trim-end_marker s =
    trim_right-append_kept is_newline s (newline ∷ end_marker) (cons-ne-nil newline end_marker)

pub trim-newline : trim_right is_newline (newline ∷ []) ≡ []
unfolding nat_dec trim_right
trim-newline = refl

trim-cons_newline :
    (s : Str) → trim_right is_newline s ≡ [] → trim_right is_newline (newline ∷ s) ≡ []
unfolding nat_dec trim_right
trim-cons_newline s e = rw e

trim-newline_cons :
    (s : Str) (c : ℕ) (r : Str)
    → trim_right is_newline s ≡ c ∷ r
    → trim_right is_newline (newline ∷ s) ≡ newline ∷ (c ∷ r)
unfolding trim_right
trim-newline_cons s c r e = rw e

block_head : Str → List Str → List Str
block_head tld domains = begin_marker ∷ block_body tld domains

block_lines-end :
    (tld : Str) (domains : List Str)
    → block_lines tld domains ≡ block_head tld domains ++ end_marker ∷ []
block_lines-end tld domains = block_lines-eq tld domains ∙ unfold block_head in refl

block_head-ne-nil : (tld : Str) (domains : List Str) → block_head tld domains ≢ []
unfolding block_head
block_head-ne-nil tld domains = cons-ne-nil begin_marker (block_body tld domains)

-- The block, with any lines before it, ends with the end marker.
join-block :
    (tld : Str) (domains before : List Str)
    → join newline (before ++ block_lines tld domains)
      ≡ join newline (before ++ block_head tld domains) ++ (newline ∷ end_marker)
join-block tld domains before =
    ap (λ l. join newline (before ++ l)) (block_lines-end tld domains)
    ∙ (ap (join newline) (sym (append_assoc before (block_head tld domains) (end_marker ∷ [])))
        ∙ (join-append newline (before ++ block_head tld domains) (end_marker ∷ [])
              (append-ne-nil before (block_head tld domains) (block_head-ne-nil tld domains))
              (cons-ne-nil end_marker [])
            ∙ (unfold join in refl)))

pub replacement-eq : (s : Str) → s ≢ [] → replacement s ≡ trim_right is_newline s ∷ []
unfolding replacement
replacement-eq [] h = absurd (h refl)
replacement-eq (c ∷ s) h = refl

pub replace_block-eq :
    (c new : Str)
    → replace_block c new
      ≡ end_line (trim_right is_newline (join newline (replaced_lines new false (split newline c))))
unfolding replace_block
replace_block-eq c new = refl

pub end_line-eq : (s : Str) → s ≢ [] → end_line s ≡ s ++ newline ∷ []
unfolding end_line
end_line-eq [] h = absurd (h refl)
end_line-eq (c ∷ s) h = refl

-- A text that ends with a newline has one empty line more.
pub end_line-lines : (s : Str) → s ≢ [] → split newline (end_line s) ≡ split newline s ++ ([] ∷ [])
end_line-lines s h =
    ap (split newline) (end_line-eq s h)
    ∙ (split-append newline s [] ∙ ap (λ l. split newline s ++ l) (unfold split in refl))

module _ (tld : Str) (domains : List Str) where
  trim-join_block :
      (before : List Str)
      → trim_right is_newline (join newline (before ++ block_lines tld domains))
        ≡ join newline (before ++ block_lines tld domains)
  trim-join_block before =
      ap (trim_right is_newline) (join-block tld domains before)
      ∙ (trim-end_marker (join newline (before ++ block_head tld domains))
          ∙ sym (join-block tld domains before))

  pub build_block-ne-nil : build_block tld domains ≢ []
  build_block-ne-nil =
      subst (λ s. s ≢ []) (sym (build_block-join tld domains))
        (append-ne-nil (join newline (block_lines tld domains)) (newline ∷ [])
          (cons-ne-nil newline []))

  -- The block, as one text in place of the begin marker.
  pub replacement-build_block :
      replacement (build_block tld domains) ≡ join newline (block_lines tld domains) ∷ []
  replacement-build_block =
      replacement-eq (build_block tld domains) build_block-ne-nil
      ∙ (ap (λ s. trim_right is_newline s ∷ []) (build_block-join tld domains)
          ∙ ap (λ s. s ∷ [])
              (trim_right-append_nil is_newline (join newline (block_lines tld domains))
                  (newline ∷ []) trim-newline
                ∙ trim-join_block []))

  -- The lines around the old block are kept in order around the new one; the text ends with one
  -- newline.
  pub replace_block-build_block :
      (c : Str) (b : HasBlock c)
      → replace_block c (build_block tld domains)
        ≡ end_line (
            trim_right is_newline (join newline (b.before ++ (block_lines tld domains ++ b.after))))
  replace_block-build_block c b =
      replace_block-eq c (build_block tld domains)
      ∙ ap (λ l. end_line (trim_right is_newline l))
          (ap (λ l. join newline (replaced_lines (build_block tld domains) false l)) b.shape
            ∙ (ap (join newline) (
                  replaced-block b.before b.opening b.inside b.closing b.after b.opens b.closes
                    b.plain_before b.plain_inside b.plain_after (build_block tld domains))
                ∙ (ap (λ r. join newline (b.before ++ (r ++ b.after))) replacement-build_block
                    ∙ join_nested newline b.before (block_lines tld domains) b.after
                        (lines-ne-nil tld domains))))

  pub with_block-ne-nil : (before : List Str) → before ++ block_lines tld domains ≢ []
  with_block-ne-nil before =
      append-ne-nil before (block_lines tld domains) (lines-ne-nil tld domains)

  -- The lines of the block behind the lines before it, as one text.
  abbrev with_block : List Str → Str
  with_block before = join newline (before ++ block_lines tld domains)

  join-with_block :
      (before after : List Str)
      → after ≢ []
      → join newline (before ++ (block_lines tld domains ++ after))
        ≡ with_block before ++ (newline ∷ join newline after)
  join-with_block before after h =
      ap (join newline) (sym (append_assoc before (block_lines tld domains) after))
      ∙ join-append newline (before ++ block_lines tld domains) after (with_block-ne-nil before) h

  module _ (before : List Str) (hl : All (Lacks newline) (before ++ block_lines tld domains)) where
    split-with_block : split newline (with_block before) ≡ before ++ (block_lines tld domains ++ [])
    split-with_block =
        split-join newline (before ++ block_lines tld domains) (with_block-ne-nil before) hl
        ∙ ap (λ l. before ++ l) (sym (append-nil (block_lines tld domains)))

    abbrev pub Trimmed : Str → Type 0
    Trimmed c =
        (rest : List Str) × All IsPlain rest
        × (split newline (trim_right is_newline c) ≡ before ++ (block_lines tld domains ++ rest))

    Trimmed-block : Trimmed (with_block before)
    Trimmed-block = ([], tt, ap (split newline) (trim-join_block before) ∙ split-with_block)

    Trimmed-plain :
        (s r : Str)
        → trim_right is_newline s ≡ r
        → All IsPlain (split newline r)
        → Trimmed (with_block before ++ (newline ∷ s))
    Trimmed-plain s [] e h = (
      Trimmed-block.0,
      Trimmed-block.1,
      ap (split newline) (
            trim_right-append_nil is_newline (with_block before) (newline ∷ s)
              (trim-cons_newline s e))
          ∙ Trimmed-block.2,
    )
    Trimmed-plain s (c ∷ r) e h = (
      split newline (c ∷ r),
      h,
      ap (split newline) (
            trim_right-append_kept is_newline (with_block before) (newline ∷ s)
              (subst (λ t. t ≢ []) (sym (trim-newline_cons s c r e)) (cons-ne-nil newline (c ∷ r)))
            ∙ ap (λ t. with_block before ++ t) (trim-newline_cons s c r e))
          ∙ (split-append newline (with_block before) (c ∷ r)
              ∙ (ap (λ l. l ++ split newline (c ∷ r))
                    (split-join newline (before ++ block_lines tld domains)
                      (with_block-ne-nil before) hl)
                  ∙ append_assoc before (block_lines tld domains) (split newline (c ∷ r)))),
    )

    -- Trimming newlines off lines that end with plain ones leaves the block and plain lines.
    pub Trimmed-lines :
        (after : List Str)
        → All (Lacks newline) after
        → All IsPlain after
        → Trimmed (join newline (before ++ (block_lines tld domains ++ after)))
    Trimmed-lines [] ha pa =
        subst Trimmed
          (ap (λ l. join newline (before ++ l)) (sym (append-nil (block_lines tld domains))))
          Trimmed-block
    Trimmed-lines (a ∷ after) ha pa =
        subst Trimmed (sym (join-with_block before (a ∷ after) (cons-ne-nil a after))) (
          Trimmed-plain (join newline (a ∷ after))
            (trim_right is_newline (join newline (a ∷ after))) refl
            (trim_newlines-IsPlain (join newline (a ∷ after)) (
              subst (All IsPlain) (sym (split-join newline (a ∷ after) (cons-ne-nil a after) ha))
                pa)))
