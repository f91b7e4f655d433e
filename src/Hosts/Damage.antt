-- ===== src/Hosts/Damage.antt =====
-- Hosts files that lost one of the two markers: what a sync makes of them.
use mathlib.Core.Path.{subst}
use caddy_dev_local.Base.{
  ◌≡◌, ◌≢◌, refl, sym, ap, ◌∙◌, false, List, [], ◌∷◌, ◌++◌, arith, All, All-append, All-append_left,
  All-append_right, list_eq, nat_eq,
}
use caddy_dev_local.Str.{Str, Lacks, newline, split, join, trim_right}
use caddy_dev_local.Str.Lines.{split-join, split-append, split-Lacks, split-append_sep}
use caddy_dev_local.Hosts.{
  Mark, begin_mark, end_mark, plain, mark, Disk, Faults, done, is_newline, block_lines, build_block,
  block_of, replace_block, replaced_lines, marked_lines, joined_block, end_line, new_content,
  sync_to_file,
}
use caddy_dev_local.Hosts.Text.{IsPlain}
use caddy_dev_local.Hosts.Block.{
  NoMarker, block_lines-eq, marked_outside, marked_end, marked_none, replaced_outside, replaced_end,
  replaced_none, begin_marker-mark,
}
use caddy_dev_local.Hosts.Shape.{block_lines-Lacks, build_block-join, lines-ne-nil}
use caddy_dev_local.Hosts.Content.{replace_block-eq}
use caddy_dev_local.Hosts.Calls.{stored, Works, stored-wrote, sync_to_file-eq}
use caddy_dev_local.Hosts.Sync.{block_of_none, new_content-some, joined_block-ne-nil}
use caddy_dev_local.Hosts.Remove.{text-NoMarker}

pub block_of-eq : (c : Str) → block_of c ≡ joined_block (marked_lines false (split newline c))
unfolding block_of
block_of-eq c = refl

begin-ne-end : begin_mark ≢ end_mark
begin-ne-end h = cc

abbrev first_mark : List Str → Mark
first_mark [] = plain
first_mark (l ∷ ls) = mark l

joined_block-one : (l : Str) → joined_block (l ∷ []) ≡ l ++ newline ∷ []
unfolding joined_block join
joined_block-one l = refl

first_mark-joined :
    (l : Str) → Lacks newline l → first_mark (split newline (joined_block (l ∷ []))) ≡ mark l
first_mark-joined l h =
    ap (λ t. first_mark (split newline t)) (joined_block-one l)
    ∙ ap first_mark (split-append_sep newline l [] h)

module _ (tld : Str) (domains : List Str) (ht : Lacks newline tld)
    (hd : All (Lacks newline) domains) where
  pub split-build_block :
      split newline (build_block tld domains) ≡ block_lines tld domains ++ [] ∷ []
  split-build_block =
      ap (split newline) (build_block-join tld domains)
      ∙ (split-append newline (join newline (block_lines tld domains)) []
          ∙ (ap (λ l. l ++ split newline [])
                (split-join newline (block_lines tld domains) (lines-ne-nil tld domains)
                  (block_lines-Lacks tld domains ht hd))
              ∙ ap (λ l. block_lines tld domains ++ l) (unfold split in refl)))

  first_mark-build_block : first_mark (split newline (build_block tld domains)) ≡ begin_mark
  first_mark-build_block = rw (split-build_block, block_lines-eq) begin_marker-mark

  module _ (c : Str) (before : List Str) (closing : Str) (after : List Str)
      (shape : split newline c ≡ before ++ (closing ∷ after)) (closes : mark closing ≡ end_mark)
      (hb : All IsPlain before) (ha : All IsPlain after) where
    parts-Lacks : All (Lacks newline) (before ++ (closing ∷ after))
    parts-Lacks = subst (All (Lacks newline)) shape (split-Lacks newline c)

    rest-Lacks : All (Lacks newline) (closing ∷ after)
    rest-Lacks = All-append_right (Lacks newline) before (closing ∷ after) parts-Lacks

    lone_end_block : block_of c ≡ joined_block (closing ∷ [])
    lone_end_block =
        block_of-eq c
        ∙ ap joined_block (
            ap (marked_lines false) shape
            ∙ (marked_outside before (closing ∷ after) hb
                ∙ (marked_end false closing after closes
                    ∙ ap (◌∷◌ closing) (marked_none after ha))))

    lone_end_differs : build_block tld domains ≢ block_of c
    lone_end_differs e = begin-ne-end (
        sym (first_mark-build_block)
        ∙ (ap (λ t. first_mark (split newline t)) (e ∙ lone_end_block)
            ∙ (first_mark-joined closing rest-Lacks.0 ∙ closes)))

    lone_end_gone : NoMarker (replace_block c (build_block tld domains))
    lone_end_gone =
        subst NoMarker
          (sym (
            replace_block-eq c (build_block tld domains)
            ∙ ap (λ l. end_line (trim_right is_newline (join newline l)))
                (ap (replaced_lines (build_block tld domains) false) shape
                  ∙ (replaced_outside (build_block tld domains) before (closing ∷ after) hb
                      ∙ ap (λ l. before ++ l)
                          (replaced_end (build_block tld domains) false closing after closes
                            ∙ replaced_none (build_block tld domains) after ha)))))
          (text-NoMarker (before ++ after)
            (All-append (Lacks newline) before after
              (All-append_left (Lacks newline) before (closing ∷ after) parts-Lacks) rest-Lacks.1)
            (All-append IsPlain before after hb ha))

    lone_end_written :
        (existing : Str)
        → existing ≢ []
        → block_of (new_content c existing (build_block tld domains)) ≡ []
    lone_end_written existing h =
        ap block_of (new_content-some c existing (build_block tld domains) h)
        ∙ block_of_none (replace_block c (build_block tld domains)) lone_end_gone

    -- A hosts file that holds an end marker and no begin marker: if no call fails, a sync reports
    -- success, and no block is read from the file afterwards. The end marker is the only one in the
    -- file, and the names are one line each.
    pub sync_of_lone_end :
        (f : Faults) (d : Disk)
        → Works f
        → stored d ≡ c
        → ((sync_to_file f tld domains d).0 ≡ done)
          × (block_of (stored (sync_to_file f tld domains d).1) ≡ [])
    sync_of_lone_end f d w e = rw (sync_to_file-eq f tld domains d w) (
        ground (
          arith,
          e,
          lone_end_differs,
          lone_end_written (block_of c)
              (subst (λ t. t ≢ []) (sym lone_end_block) (joined_block-ne-nil closing [])),
          stored-wrote f (new_content (stored d) (block_of (stored d)) (build_block tld domains)) d,
        ))
