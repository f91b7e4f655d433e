-- ===== src/Hosts/Sync.antt =====
-- `syncToFile`: what a sync leaves in the hosts file.
use mathlib.Core.Path.{subst}
use mathlib.Core.List.{cons-ne-nil}
use caddy_dev_local.Base.{
  ◌≡◌, ◌≢◌, refl, sym, ap, ◌∙◌, false, List, [], ◌∷◌, ◌++◌, append_assoc, arith, All, All-append,
  All-append_left, All-append_right, ◌⊎◌, inl, inr, list_eq, nat_eq,
}
use caddy_dev_local.Str.{Str, Lacks, newline, split, join, trim_right}
use caddy_dev_local.Str.Lines.{split-join, split-append, split-Lacks, append-ne-nil}
use caddy_dev_local.Hosts.{
  mark, Disk, Faults, done, is_line_end, block_lines, build_block, block_of, replace_block,
  appended, new_content, sync_to_file, marked_lines, joined_block,
}
use caddy_dev_local.Hosts.Calls.{stored, Works, stored-wrote, sync_to_file-eq}
use caddy_dev_local.Hosts.Text.{IsPlain, trim_right-IsPlain}
use caddy_dev_local.Hosts.Block.{NoMarker, HasBlock, marked_none, marked-block}
use caddy_dev_local.Hosts.Shape.{
  build_block-join, block_lines-Lacks, lines-ne-nil, block_of-written,
}
use caddy_dev_local.Hosts.Content.{
  replace_block-build_block, Trimmed-lines, end_line-lines, build_block-ne-nil,
}

-- The file has no block yet, or has one block.
abbrev pub IsManaged : Str → Type 0
IsManaged c = NoMarker c ⊎ HasBlock c

-- The content has the written block between lines that are no markers.
abbrev pub IsWritten : Str → List Str → Str → Type 0
IsWritten tld domains c =
    (before : List Str) × (after : List Str) × All IsPlain before
    × All IsPlain after
    × (split newline c ≡ before ++ (block_lines tld domains ++ after))

pub block_of_none : (c : Str) → NoMarker c → block_of c ≡ []
unfolding block_of
block_of_none c h = ap joined_block (marked_none (split newline c) h)

pub blank-IsPlain : IsPlain []
unfolding mark
blank-IsPlain = refl

pub blanks-IsPlain : All IsPlain ([] ∷ ([] ∷ []))
blanks-IsPlain = (blank-IsPlain, (blank-IsPlain, tt))

pub split-newline : split newline (newline ∷ []) ≡ [] ∷ ([] ∷ [])
unfolding split
split-newline = refl

pub none-NoMarker : NoMarker []
unfolding split
none-NoMarker = (blank-IsPlain, tt)

module _ (c : Str) (b : HasBlock c) where
  around-Lacks : All (Lacks newline) b.before × All (Lacks newline) b.after
  around-Lacks =
      let all : All (Lacks newline)
          (b.before ++ (b.opening ∷ (b.inside ++ (b.closing ∷ b.after)))) =
        subst (All (Lacks newline)) b.shape (split-Lacks newline c) in
      (
        All-append_left (Lacks newline) b.before (b.opening ∷ (b.inside ++ (b.closing ∷ b.after)))
            all,
        (All-append_right (Lacks newline) b.inside (b.closing ∷ b.after)
            (All-append_right (Lacks newline) b.before
              (b.opening ∷ (b.inside ++ (b.closing ∷ b.after))) all).1).1,
      )

pub joined_block-ne-nil : (l : Str) (ls : List Str) → joined_block (l ∷ ls) ≢ []
unfolding joined_block
joined_block-ne-nil l ls =
    append-ne-nil (join newline (l ∷ ls)) (newline ∷ []) (cons-ne-nil newline [])

pub block_of_block-ne-nil : (c : Str) → HasBlock c → block_of c ≢ []
unfolding block_of
block_of_block-ne-nil c b =
    subst (λ l. joined_block l ≢ [])
      (sym (
        ap (marked_lines false) b.shape
        ∙ marked-block b.before b.opening b.inside b.closing b.after b.opens b.closes b.plain_before
            b.plain_inside b.plain_after))
      (joined_block-ne-nil b.opening (b.inside ++ b.closing ∷ []))

pub new_content-none :
    (c expected : Str) → new_content c [] expected ≡ appended (trim_right is_line_end c) expected
unfolding new_content
new_content-none c expected = refl

pub new_content-some :
    (c existing expected : Str)
    → existing ≢ []
    → new_content c existing expected ≡ replace_block c expected
unfolding new_content
new_content-some c [] expected h = absurd (h refl)
new_content-some c (x ∷ existing) expected h = refl

module _ (tld : Str) (domains : List Str) (ht : Lacks newline tld)
    (hd : All (Lacks newline) domains) where
  pub written_text :
      split newline (build_block tld domains ++ newline ∷ [])
      ≡ block_lines tld domains ++ ([] ∷ ([] ∷ []))
  written_text =
      ap (λ s. split newline (s ++ newline ∷ [])) (build_block-join tld domains)
      ∙ (ap (split newline)
            (append_assoc (join newline (block_lines tld domains)) (newline ∷ []) (newline ∷ []))
          ∙ (split-append newline (join newline (block_lines tld domains)) (newline ∷ [])
              ∙ (ap (λ l. l ++ split newline (newline ∷ []))
                    (split-join newline (block_lines tld domains) (lines-ne-nil tld domains)
                      (block_lines-Lacks tld domains ht hd))
                  ∙ ap (λ l. block_lines tld domains ++ l) (split-newline))))

  appended-IsWritten :
      (t : Str) → NoMarker t → IsWritten tld domains (appended t (build_block tld domains))
  unfolding appended
  appended-IsWritten [] h = ([], [] ∷ ([] ∷ []), tt, blanks-IsPlain, written_text)
  appended-IsWritten (c ∷ t) h = (
    split newline (c ∷ t),
    [] ∷ ([] ∷ []),
    h,
    blanks-IsPlain,
    split-append newline (c ∷ t) (build_block tld domains ++ newline ∷ [])
        ∙ ap (λ l. split newline (c ∷ t) ++ l) written_text,
  )

  written-ne-nil :
      (c : Str) (before after : List Str)
      → All IsPlain before
      → All IsPlain after
      → split newline c ≡ before ++ (block_lines tld domains ++ after)
      → c ≢ []
  written-ne-nil c before after hb ha e n = build_block-ne-nil tld domains (
      sym (block_of-written tld domains c before after hb ha e)
      ∙ (ap block_of n ∙ block_of_none [] none-NoMarker))

  replaced-IsWritten :
      (c : Str) → HasBlock c → IsWritten tld domains (replace_block c (build_block tld domains))
  replaced-IsWritten c b =
      let (lb, la) = around-Lacks c b in
      let (rest, hr, e) =
        Trimmed-lines tld domains b.before
          (All-append (Lacks newline) b.before (block_lines tld domains) lb
            (block_lines-Lacks tld domains ht hd))
          b.after la b.plain_after in
      (
        b.before,
        rest ++ ([] ∷ []),
        b.plain_before,
        All-append IsPlain rest ([] ∷ []) hr (blank-IsPlain, tt),
        ap (split newline) (replace_block-build_block tld domains c b)
            ∙ (end_line-lines _ (written-ne-nil _ b.before rest b.plain_before hr e)
                ∙ (ap (λ l. l ++ ([] ∷ [])) e
                    ∙ (append_assoc b.before (block_lines tld domains ++ rest) ([] ∷ [])
                        ∙ ap (λ l. b.before ++ l)
                            (append_assoc (block_lines tld domains) rest ([] ∷ []))))),
      )

  -- What the second half of a sync writes holds the block, whichever branch it takes.
  pub new_content-IsWritten :
      (c : Str)
      → IsManaged c
      → IsWritten tld domains (new_content c (block_of c) (build_block tld domains))
  new_content-IsWritten c (inl h) =
      subst (IsWritten tld domains)
        (sym (
          ap (λ e. new_content c e (build_block tld domains)) (block_of_none c h)
          ∙ new_content-none c (build_block tld domains)))
        (appended-IsWritten (trim_right is_line_end c) (trim_right-IsPlain c h))
  new_content-IsWritten c (inr b) =
      subst (IsWritten tld domains)
        (sym
          (new_content-some c (block_of c) (build_block tld domains) (block_of_block-ne-nil c b)))
        (replaced-IsWritten c b)

  block_of-new_content :
      (c : Str)
      → IsManaged c
      → block_of (new_content c (block_of c) (build_block tld domains)) ≡ build_block tld domains
  block_of-new_content c m =
      let (before, after, hb, ha, e) = new_content-IsWritten c m in
      block_of-written tld domains _ before after hb ha e

  -- If no call fails and the hosts file holds no marker or one block, a sync succeeds and the block
  -- that is read from the file afterwards is the block for the TLD and the domains. The names are
  -- one line each.
  pub block_of-sync_to_file :
      (f : Faults) (d : Disk)
      → Works f
      → IsManaged (stored d)
      → ((sync_to_file f tld domains d).0 ≡ done)
        × (block_of (stored (sync_to_file f tld domains d).1) ≡ build_block tld domains)
  block_of-sync_to_file f d w m = rw (sync_to_file-eq f tld domains d w) (
      ground (
        arith,
        block_of-new_content (stored d) m,
        stored-wrote f (new_content (stored d) (block_of (stored d)) (build_block tld domains)) d,
      ))

  -- A second sync for the same names changes nothing, whatever the disk held besides.
  pub sync_to_file_twice :
      (f g : Faults) (d : Disk)
      → Works f
      → Works g
      → IsManaged (stored d)
      → sync_to_file g tld domains (sync_to_file f tld domains d).1
        ≡ (done, (sync_to_file f tld domains d).1)
  sync_to_file_twice f g d w v m =
      rw (sync_to_file-eq g tld domains (sync_to_file f tld domains d).1 v)
        (ground (arith, block_of-sync_to_file f d w m))
