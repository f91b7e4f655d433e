-- ===== src/Hosts/Remove.antt =====
-- `removeFromFile`: what a removal leaves, and that it undoes a sync.
use mathlib.Core.Path.{subst}
use mathlib.Core.List.{cons-ne-nil}
use caddy_dev_local.Base.{
  ℕ, ◌≡◌, ◌≢◌, refl, sym, ap, ◌∙◌, Bool, true, false, List, [], ◌∷◌, ◌++◌, arith, All, All-append,
  All-append_left, ◌⊎◌, inl, inr, list_eq, nat_eq, nat_dec,
}
use caddy_dev_local.Str.{Str, Lacks, newline, split, join, trim_right}
use caddy_dev_local.Str.Lines.{
  split-join, split-append, split-Lacks, append-ne-nil, join-append, join-split, split-ne-nil,
}
use caddy_dev_local.Str.Trim.{
  trim_right-append_nil, trim_right-append_dropped, trim_right-last_kept,
}
use caddy_dev_local.Hosts.{
  Mark, begin_mark, end_mark, plain, mark, Disk, Faults, done, is_newline, is_line_end, build_block,
  block_of, replace_block, replaced_lines, replacement, end_line, appended, new_content,
  sync_to_file, remove_from_file,
}
use caddy_dev_local.Hosts.Text.{IsPlain, trim_newlines-IsPlain}
use caddy_dev_local.Hosts.Block.{NoMarker, replaced-written, replaced_begin, replaced_end}
use caddy_dev_local.Hosts.Content.{
  end_line-lines, end_line-eq, replace_block-eq, build_block-ne-nil,
}
use caddy_dev_local.Hosts.Calls.{stored, Works, stored-wrote, sync_to_file-eq, remove_from_file-eq}
use caddy_dev_local.Hosts.Sync.{
  block_of_none, none-NoMarker, blank-IsPlain, blanks-IsPlain, new_content-none, written_text,
  block_of-sync_to_file,
}

Mark-cases : (m : Mark) → (m ≡ begin_mark) ⊎ ((m ≡ end_mark) ⊎ (m ≡ plain))
Mark-cases begin_mark = inl refl
Mark-cases end_mark = inr (inl refl)
Mark-cases plain = inr (inr refl)

module _ {ℓ} (P : Str → Type ℓ) where
  cleared_plain :
      (in_block : Bool) (l : Str) (ls : List Str)
      → mark l ≡ plain
      → P l
      → All P (replaced_lines [] in_block ls)
      → All P (replaced_lines [] in_block (l ∷ ls))
  unfolding replaced_lines
  cleared_plain true l ls e p h = rw (e, replaced_lines) h
  cleared_plain false l ls e p h = rw (e, replaced_lines) (p, h)

  -- Without a text to put in its place, a block leaves only lines that are no markers.
  cleared-All :
      (in_block : Bool) (ls : List Str)
      → All (λ l. IsPlain l → P l) ls
      → All P (replaced_lines [] in_block ls)
  cleared-All in_block [] h = unfold replaced_lines in tt
  cleared-All in_block (l ∷ ls) h =
      step (Mark-cases (mark l)) (cleared-All true ls h.1) (cleared-All false ls h.1)
        (cleared-All in_block ls h.1)
    where
      step :
          (mark l ≡ begin_mark) ⊎ ((mark l ≡ end_mark) ⊎ (mark l ≡ plain))
          → All P (replaced_lines [] true ls)
          → All P (replaced_lines [] false ls)
          → All P (replaced_lines [] in_block ls)
          → All P (replaced_lines [] in_block (l ∷ ls))
      step (inl e) t f k =
          subst (All P) (sym (replaced_begin [] in_block l ls e)) (unfold replacement in t)
      step (inr (inl e)) t f k = subst (All P) (sym (replaced_end [] in_block l ls e)) f
      step (inr (inr e)) t f k = cleared_plain in_block l ls e (h.0 e) k

All-const {ℓ} : (P : Str → Type ℓ) (ls : List Str) → All P ls → All (λ l. IsPlain l → P l) ls
All-const P [] h = tt
All-const P (l ∷ ls) h = (λ _. h.0, All-const P ls h.1)

All-self : (ls : List Str) → All (λ l. IsPlain l → IsPlain l) ls
All-self [] = tt
All-self (l ∷ ls) = (λ h. h, All-self ls)

pub end_line-NoMarker : (s : Str) → NoMarker s → NoMarker (end_line s)
end_line-NoMarker [] h = unfold end_line in h
end_line-NoMarker (c ∷ s) h =
    subst (All IsPlain) (sym (end_line-lines (c ∷ s) (cons-ne-nil c s)))
      (All-append IsPlain (split newline (c ∷ s)) ([] ∷ []) h (blank-IsPlain, tt))

-- Plain lines, trimmed and ended by a newline, are a text without a marker.
pub text-NoMarker :
    (ls : List Str)
    → All (Lacks newline) ls
    → All IsPlain ls
    → NoMarker (end_line (trim_right is_newline (join newline ls)))
text-NoMarker [] hl hp = unfold end_line trim_right join in none-NoMarker
text-NoMarker (l ∷ ls) hl hp = end_line-NoMarker (trim_right is_newline (join newline (l ∷ ls))) (
    trim_newlines-IsPlain (join newline (l ∷ ls))
      (subst (All IsPlain) (sym (split-join newline (l ∷ ls) (cons-ne-nil l ls) hl)) hp))

-- The text that `replaceBlock` gives for an empty block has no marker.
pub replace_block_nil-NoMarker : (c : Str) → NoMarker (replace_block c [])
replace_block_nil-NoMarker c = subst NoMarker (sym (replace_block-eq c [])) (
    text-NoMarker (replaced_lines [] false (split newline c))
      (cleared-All (Lacks newline) false (split newline c)
        (All-const (Lacks newline) (split newline c) (split-Lacks newline c)))
      (cleared-All IsPlain false (split newline c) (All-self (split newline c))))

-- If no call fails, a removal succeeds and no block is read from the file afterwards, whatever
-- markers the file held.
pub block_of-remove_from_file :
    (f : Faults) (d : Disk)
    → Works f
    → ((remove_from_file f d).0 ≡ done) × (block_of (stored (remove_from_file f d).1) ≡ [])
block_of-remove_from_file f d w = rw (remove_from_file-eq f d w) (
    ground (
      arith,
      block_of_none (replace_block (stored d) []) (replace_block_nil-NoMarker (stored d)),
      stored-wrote f (replace_block (stored d) []) d,
    ))

newline_end : is_line_end newline ≡ true
unfolding nat_dec
newline_end = refl

trim_newlines : trim_right is_newline (newline ∷ (newline ∷ [])) ≡ []
unfolding nat_dec trim_right
trim_newlines = refl

join_blanks : join newline ([] ∷ ([] ∷ [])) ≡ newline ∷ []
unfolding join
join_blanks = refl

appended-eq :
    (t expected : Str) → t ≢ [] → appended t expected ≡ t ++ (newline ∷ (expected ++ newline ∷ []))
unfolding appended
appended-eq [] expected h = absurd (h refl)
appended-eq (c ∷ t) expected h = refl

module _ (tld : Str) (domains : List Str) (ht : Lacks newline tld)
    (hd : All (Lacks newline) domains) (s : Str) (last : ℕ) (hl : is_line_end last ≡ false) where
  -- A text of at least one character that ends with one newline.
  abbrev body : Str
  body = s ++ last ∷ []

  newline_last : is_newline last ≡ false
  newline_last = ground arith

  added :
      new_content (body ++ newline ∷ []) [] (build_block tld domains)
      ≡ body ++ (newline ∷ (build_block tld domains ++ newline ∷ []))
  added =
      new_content-none (body ++ newline ∷ []) (build_block tld domains)
      ∙ (ap (λ t. appended t (build_block tld domains))
            (trim_right-append_dropped is_line_end body (newline ∷ []) (newline_end, tt)
              ∙ trim_right-last_kept is_line_end s last hl)
          ∙ appended-eq body (build_block tld domains)
              (append-ne-nil s (last ∷ []) (cons-ne-nil last [])))

  taken_lines :
      NoMarker body
      → replaced_lines [] false
          (split newline (body ++ (newline ∷ (build_block tld domains ++ newline ∷ []))))
        ≡ split newline body ++ ([] ∷ ([] ∷ []))
  unfolding replacement
  taken_lines h =
      ap (replaced_lines [] false) (
        split-append newline body (build_block tld domains ++ newline ∷ [])
        ∙ ap (λ l. split newline body ++ l) (written_text tld domains ht hd))
      ∙ replaced-written [] tld domains (split newline body) ([] ∷ ([] ∷ [])) h blanks-IsPlain

  joined_back :
      join newline (split newline body ++ ([] ∷ ([] ∷ []))) ≡ body ++ (newline ∷ (newline ∷ []))
  joined_back =
      join-append newline (split newline body) ([] ∷ ([] ∷ [])) (split-ne-nil newline body)
        (cons-ne-nil [] ([] ∷ []))
      ∙ (ap (λ t. t ++ (newline ∷ join newline ([] ∷ ([] ∷ [])))) (join-split newline body)
          ∙ ap (λ t. body ++ (newline ∷ t)) join_blanks)

  taken_back :
      NoMarker body
      → replace_block (body ++ (newline ∷ (build_block tld domains ++ newline ∷ []))) []
        ≡ body ++ newline ∷ []
  taken_back h =
      replace_block-eq (body ++ (newline ∷ (build_block tld domains ++ newline ∷ []))) []
      ∙ (ap (λ l. end_line (trim_right is_newline (join newline l))) (taken_lines h)
          ∙ (ap (λ t. end_line (trim_right is_newline t)) joined_back
              ∙ (ap end_line (
                    trim_right-append_nil is_newline body (newline ∷ (newline ∷ [])) trim_newlines
                    ∙ trim_right-last_kept is_newline s last newline_last)
                  ∙ end_line-eq body (append-ne-nil s (last ∷ []) (cons-ne-nil last [])))))

  body-NoMarker : NoMarker (body ++ newline ∷ []) → NoMarker body
  body-NoMarker h =
      All-append_left IsPlain (split newline body) (split newline [])
        (subst (All IsPlain) (split-append newline body []) h)

  synced :
      (f : Faults) (d : Disk)
      → Works f
      → stored d ≡ body ++ newline ∷ []
      → NoMarker (body ++ newline ∷ [])
      → stored (sync_to_file f tld domains d).1
        ≡ body ++ (newline ∷ (build_block tld domains ++ newline ∷ []))
  synced f d w e h = rw (sync_to_file-eq f tld domains d w) (
      ground (
        arith,
        build_block-ne-nil tld domains,
        ap block_of e ∙ block_of_none (body ++ newline ∷ []) h,
        stored-wrote f (new_content (stored d) (block_of (stored d)) (build_block tld domains)) d,
        added,
      ))

  -- A file that holds no marker and is a text whose last character is no line end, followed by one
  -- newline, has its old content again after a sync and a removal in which no call fails. The names
  -- are one line each.
  pub remove_from_file-sync_to_file :
      (f g : Faults) (d : Disk)
      → Works f
      → Works g
      → stored d ≡ body ++ newline ∷ []
      → NoMarker (body ++ newline ∷ [])
      → stored (remove_from_file g (sync_to_file f tld domains d).1).1 ≡ stored d
  remove_from_file-sync_to_file f g d w v e h =
      rw (remove_from_file-eq g (sync_to_file f tld domains d).1 v) (
        ground (
          arith,
          build_block-ne-nil tld domains,
          synced f d w e h,
          block_of-sync_to_file tld domains ht hd f d w (inl (subst NoMarker (sym e) h)),
          stored-wrote g (replace_block (stored (sync_to_file f tld domains d).1) [])
              (sync_to_file f tld domains d).1,
          taken_back (body-NoMarker h),
        ))
