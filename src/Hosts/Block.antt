-- ===== src/Hosts/Block.antt =====
-- The block that the program writes, and the lines of a file that holds one block.
use caddy_dev_local.Base.{
  ◌≡◌, refl, sym, ap, ◌∙◌, Bool, true, false, List, [], ◌∷◌, ◌++◌, append_assoc, append-nil, arith,
  All, All-append, nat_eq, list_eq,
}
use caddy_dev_local.Base.Sort.{sort}
use caddy_dev_local.Str.{Str, codes, newline, split, join, str_le}
use caddy_dev_local.Tld.{tld_localhost}
use caddy_dev_local.Hosts.{
  begin_mark, end_mark, mark, begin_marker, end_marker, managed_line, host_line, domain_lines,
  alias_lines, block_lines, lines_text, marked_lines, replacement, replaced_lines,
}
use caddy_dev_local.Hosts.Text.{IsPlain, address-IsPlain}

-- No line of the text is a marker.
abbrev pub NoMarker : Str → Type 0
NoMarker c = All IsPlain (split newline c)

-- The text holds one block: a begin marker, an end marker behind it, and no other marker.
pub record HasBlock (c : Str) : Type 0 where
  pub before : List Str
  pub opening : Str
  pub inside : List Str
  pub closing : Str
  pub after : List Str
  pub shape : split newline c ≡ before ++ (opening ∷ (inside ++ (closing ∷ after)))
  pub opens : mark opening ≡ begin_mark
  pub closes : mark closing ≡ end_mark
  pub plain_before : All IsPlain before
  pub plain_inside : All IsPlain inside
  pub plain_after : All IsPlain after

pub marked_outside :
    (ls r : List Str) → All IsPlain ls → marked_lines false (ls ++ r) ≡ marked_lines false r
unfolding marked_lines
marked_outside [] r h = refl
marked_outside (l ∷ ls) r h = rw (h.0, marked_lines) (marked_outside ls r h.1)

pub marked_inside :
    (ls r : List Str) → All IsPlain ls → marked_lines true (ls ++ r) ≡ ls ++ marked_lines true r
unfolding marked_lines
marked_inside [] r h = refl
marked_inside (l ∷ ls) r h = rw (h.0, marked_lines) (ap (◌∷◌ l) (marked_inside ls r h.1))

pub marked_begin :
    (in_block : Bool) (l : Str) (ls : List Str)
    → mark l ≡ begin_mark
    → marked_lines in_block (l ∷ ls) ≡ l ∷ marked_lines true ls
unfolding marked_lines
marked_begin b l ls h = rw (h, marked_lines)

pub marked_end :
    (in_block : Bool) (l : Str) (ls : List Str)
    → mark l ≡ end_mark
    → marked_lines in_block (l ∷ ls) ≡ l ∷ marked_lines false ls
unfolding marked_lines
marked_end b l ls h = rw (h, marked_lines)

pub marked_none : (ls : List Str) → All IsPlain ls → marked_lines false ls ≡ []
unfolding marked_lines
marked_none [] h = refl
marked_none (l ∷ ls) h = rw (h.0, marked_lines) (marked_none ls h.1)

pub replaced_outside :
    (new : Str) (ls r : List Str)
    → All IsPlain ls
    → replaced_lines new false (ls ++ r) ≡ ls ++ replaced_lines new false r
unfolding replaced_lines
replaced_outside new [] r h = refl
replaced_outside new (l ∷ ls) r h =
    rw (h.0, replaced_lines) (ap (◌∷◌ l) (replaced_outside new ls r h.1))

pub replaced_inside :
    (new : Str) (ls r : List Str)
    → All IsPlain ls
    → replaced_lines new true (ls ++ r) ≡ replaced_lines new true r
unfolding replaced_lines
replaced_inside new [] r h = refl
replaced_inside new (l ∷ ls) r h = rw (h.0, replaced_lines) (replaced_inside new ls r h.1)

pub replaced_begin :
    (new : Str) (in_block : Bool) (l : Str) (ls : List Str)
    → mark l ≡ begin_mark
    → replaced_lines new in_block (l ∷ ls) ≡ replacement new ++ replaced_lines new true ls
unfolding replaced_lines
replaced_begin new b l ls h = rw (h, replaced_lines)

pub replaced_end :
    (new : Str) (in_block : Bool) (l : Str) (ls : List Str)
    → mark l ≡ end_mark
    → replaced_lines new in_block (l ∷ ls) ≡ replaced_lines new false ls
unfolding replaced_lines
replaced_end new b l ls h = rw (h, replaced_lines)

pub replaced_none : (new : Str) (ls : List Str) → All IsPlain ls → replaced_lines new false ls ≡ ls
replaced_none new ls h =
    ap (replaced_lines new false) (sym (append-nil ls))
    ∙ (replaced_outside new ls [] h ∙ (unfold replaced_lines in append-nil ls))

module _ (before : List Str) (opening : Str) (inside : List Str) (closing : Str) (after : List Str)
    (opens : mark opening ≡ begin_mark) (closes : mark closing ≡ end_mark) (hb : All IsPlain before)
    (hi : All IsPlain inside) (ha : All IsPlain after) where
  -- The lines from the begin marker to the end marker are read.
  pub marked-block :
      marked_lines false (before ++ (opening ∷ (inside ++ (closing ∷ after))))
      ≡ opening ∷ (inside ++ closing ∷ [])
  marked-block = rw (
    marked_outside before (opening ∷ (inside ++ (closing ∷ after))) hb,
    marked_begin false opening (inside ++ (closing ∷ after)) opens,
    marked_inside inside (closing ∷ after) hi,
    marked_end true closing after closes,
    marked_none after ha,
  )

  -- They are replaced, and the lines around them are kept.
  pub replaced-block :
      (new : Str)
      → replaced_lines new false (before ++ (opening ∷ (inside ++ (closing ∷ after))))
        ≡ before ++ (replacement new ++ after)
  replaced-block new = rw (
    replaced_outside new before (opening ∷ (inside ++ (closing ∷ after))) hb,
    replaced_begin new false opening (inside ++ (closing ∷ after)) opens,
    replaced_inside new inside (closing ∷ after) hi,
    replaced_end new true closing after closes,
    replaced_none new after ha,
  )

-- The lines between the markers of the block that is written.
pub block_body : Str → List Str → List Str
block_body tld domains =
    managed_line
    ∷ host_line tld
    ∷ (alias_lines tld (sort str_le domains) ++ domain_lines tld (sort str_le domains))

pub block_lines-eq :
    (tld : Str) (domains : List Str)
    → block_lines tld domains ≡ begin_marker ∷ (block_body tld domains ++ end_marker ∷ [])
unfolding block_lines block_body
block_lines-eq tld domains = rw append_assoc

domain_lines-IsPlain : (tld : Str) (ds : List Str) → All IsPlain (domain_lines tld ds)
unfolding domain_lines
domain_lines-IsPlain tld [] = tt
domain_lines-IsPlain tld (d ∷ ds) =
    ground (arith, domain_lines-IsPlain tld ds, address-IsPlain (codes "27.0.0.1    " ++ d))

alias_lines-IsPlain : (tld : Str) (ds : List Str) → All IsPlain (alias_lines tld ds)
unfolding alias_lines
alias_lines-IsPlain tld ds =
    ground (arith, address-IsPlain (codes "27.0.0.1    " ++ tld_localhost tld))

managed_line-IsPlain : IsPlain managed_line
unfolding mark
managed_line-IsPlain = refl

pub block_body-IsPlain : (tld : Str) (domains : List Str) → All IsPlain (block_body tld domains)
unfolding block_body
block_body-IsPlain tld domains = (
  managed_line-IsPlain,
  (
    address-IsPlain (codes "27.0.0.1    " ++ tld),
    All-append IsPlain (alias_lines tld (sort str_le domains))
        (domain_lines tld (sort str_le domains)) (alias_lines-IsPlain tld (sort str_le domains))
        (domain_lines-IsPlain tld (sort str_le domains)),
  ),
)

pub begin_marker-mark : mark begin_marker ≡ begin_mark
unfolding mark
begin_marker-mark = refl

pub end_marker-mark : mark end_marker ≡ end_mark
unfolding mark
end_marker-mark = refl

-- Between lines that are no markers the written block is what is read.
pub marked-written :
    (tld : Str) (domains before after : List Str)
    → All IsPlain before
    → All IsPlain after
    → marked_lines false (before ++ (block_lines tld domains ++ after)) ≡ block_lines tld domains
marked-written tld domains before after hb ha =
    rw (block_lines-eq tld domains, append_assoc)
      (marked-block before begin_marker (block_body tld domains) end_marker after begin_marker-mark
        end_marker-mark hb (block_body-IsPlain tld domains) ha)

pub replaced-written :
    (new tld : Str) (domains before after : List Str)
    → All IsPlain before
    → All IsPlain after
    → replaced_lines new false (before ++ (block_lines tld domains ++ after))
      ≡ before ++ (replacement new ++ after)
replaced-written new tld domains before after hb ha =
    rw (block_lines-eq tld domains, append_assoc)
      (replaced-block before begin_marker (block_body tld domains) end_marker after
        begin_marker-mark end_marker-mark hb (block_body-IsPlain tld domains) ha new)

pub lines_text-join :
    (l : Str) (ls : List Str) → lines_text (l ∷ ls) ≡ join newline (l ∷ ls) ++ newline ∷ []
unfolding lines_text join
lines_text-join l [] = refl
lines_text-join l (k ∷ ls) = rw (lines_text-join k ls, append_assoc)
