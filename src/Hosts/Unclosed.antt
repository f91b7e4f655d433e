-- ===== src/Hosts/Unclosed.antt =====
-- A hosts file whose block has no end marker: what a sync makes of it.
use mathlib.Core.Path.{subst}
use mathlib.Core.List
use mathlib.Core.List.{cons-ne-nil, tail-eq_of_cons-eq}
use caddy_dev_local.Base.{
  ◌≡◌, ◌≢◌, refl, sym, ap, ◌∙◌, true, false, List, [], ◌∷◌, ◌++◌, append-nil, arith, All,
  All-append_right, list_eq, nat_eq,
}
use caddy_dev_local.Str.{Str, Lacks, newline, split, join, trim_right}
use caddy_dev_local.Str.Lines.{split-join, split-append, split-Lacks, join_nested}
use caddy_dev_local.Hosts.{
  begin_mark, end_mark, plain, mark, Disk, Faults, done, is_newline, block_lines, build_block,
  block_of, replace_block, replaced_lines, marked_lines, joined_block, replacement, end_line,
  new_content, sync_to_file, end_marker,
}
use caddy_dev_local.Hosts.Text.{IsPlain}
use caddy_dev_local.Hosts.Block.{
  block_body, block_lines-eq, marked_outside, marked_inside, marked_begin, replaced_outside,
  replaced_inside, replaced_begin, end_marker-mark,
}
use caddy_dev_local.Hosts.Shape.{lines-ne-nil, joined_block-join}
use caddy_dev_local.Hosts.Content.{replace_block-eq, replacement-build_block}
use caddy_dev_local.Hosts.Calls.{stored, Works, stored-wrote, sync_to_file-eq}
use caddy_dev_local.Hosts.Sync.{new_content-some, joined_block-ne-nil}
use caddy_dev_local.Hosts.Damage.{block_of-eq, split-build_block}

plain-ne-end : plain ≢ end_mark
plain-ne-end h = cc

split-joined_block :
    (ls : List Str)
    → ls ≢ []
    → All (Lacks newline) ls
    → split newline (joined_block ls) ≡ ls ++ [] ∷ []
split-joined_block ls n h =
    ap (split newline) (joined_block-join ls n)
    ∙ (split-append newline (join newline ls) []
        ∙ (ap (λ l. l ++ split newline []) (split-join newline ls n h)
            ∙ ap (λ l. ls ++ l) (unfold split in refl)))

marked_lines-plain_rest : (ls : List Str) → All IsPlain ls → marked_lines true ls ≡ ls
marked_lines-plain_rest ls h =
    ap (marked_lines true) (sym (append-nil ls))
    ∙ (marked_inside ls [] h ∙ (unfold marked_lines in append-nil ls))

replaced_lines-plain_rest :
    (new : Str) (ls : List Str) → All IsPlain ls → replaced_lines new true ls ≡ []
replaced_lines-plain_rest new ls h =
    ap (replaced_lines new true) (sym (append-nil ls))
    ∙ (replaced_inside new ls [] h ∙ (unfold replaced_lines in refl))

module _ (tld : Str) (domains : List Str) (ht : Lacks newline tld)
    (hd : All (Lacks newline) domains) (c : Str) (before : List Str) (opening : Str)
    (after : List Str) (shape : split newline c ≡ before ++ (opening ∷ after))
    (opens : mark opening ≡ begin_mark) (hb : All IsPlain before) (ha : All IsPlain after) where
  open_block : block_of c ≡ joined_block (opening ∷ after)
  open_block =
      block_of-eq c
      ∙ ap joined_block (
          ap (marked_lines false) shape
          ∙ (marked_outside before (opening ∷ after) hb
              ∙ (marked_begin false opening after opens
                  ∙ ap (◌∷◌ opening) (marked_lines-plain_rest after ha))))

  lines-Lacks : All (Lacks newline) (opening ∷ after)
  lines-Lacks =
      All-append_right (Lacks newline) before (opening ∷ after)
        (subst (All (Lacks newline)) shape (split-Lacks newline c))

  open_block_differs : build_block tld domains ≢ block_of c
  open_block_differs e =
      let same : block_lines tld domains ≡ opening ∷ after =
        List.append_cancel_right (block_lines tld domains) (opening ∷ after) ([] ∷ []) (
          sym (split-build_block tld domains ht hd)
          ∙ (ap (split newline) (e ∙ open_block)
              ∙ split-joined_block (opening ∷ after) (cons-ne-nil opening after) lines-Lacks)) in
      let ends : block_body tld domains ++ end_marker ∷ [] ≡ after =
        tail-eq_of_cons-eq (sym (block_lines-eq tld domains) ∙ same) in
      plain-ne-end (
        sym
          (All-append_right IsPlain (block_body tld domains) (end_marker ∷ [])
            (subst (All IsPlain) (sym ends) ha)).0
        ∙ end_marker-mark)

  replaced_open :
      replace_block c (build_block tld domains)
      ≡ end_line (trim_right is_newline (join newline (before ++ block_lines tld domains)))
  replaced_open =
      let new : Str = build_block tld domains in
      replace_block-eq c new
      ∙ ap (λ t. end_line (trim_right is_newline t))
          (ap (λ l. join newline (replaced_lines new false l)) shape
            ∙ (ap (join newline) (
                  replaced_outside new before (opening ∷ after) hb
                  ∙ ap (λ l. before ++ l)
                      (replaced_begin new false opening after opens
                        ∙ (ap (λ l. replacement new ++ l) (replaced_lines-plain_rest new after ha)
                            ∙ ap (λ l. l ++ []) (replacement-build_block tld domains))))
                ∙ (join_nested newline before (block_lines tld domains) []
                      (lines-ne-nil tld domains)
                    ∙ ap (λ l. join newline (before ++ l)) (append-nil (block_lines tld domains)))))

  -- A hosts file with a begin marker and no end marker: if no call fails, a sync succeeds and leaves
  -- the lines before the marker and the block, and no line that stood behind the marker. The begin
  -- marker is the only one in the file, and the names are one line each.
  pub sync_of_lone_begin :
      (f : Faults) (d : Disk)
      → Works f
      → stored d ≡ c
      → ((sync_to_file f tld domains d).0 ≡ done)
        × (stored (sync_to_file f tld domains d).1
            ≡ end_line (trim_right is_newline (join newline (before ++ block_lines tld domains))))
  sync_of_lone_begin f d w e = rw (sync_to_file-eq f tld domains d w) (
      ground (
        arith,
        e,
        open_block_differs,
        new_content-some c (block_of c) (build_block tld domains)
            (subst (λ t. t ≢ []) (sym open_block) (joined_block-ne-nil opening after)),
        replaced_open,
        stored-wrote f (new_content (stored d) (block_of (stored d)) (build_block tld domains)) d,
      ))
