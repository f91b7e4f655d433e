-- ===== src/Hosts.antt =====
-- hosts/hosts.go: the block of host names that the program keeps in the hosts file.
-- The disk holds the hosts file and the temporary file beside it. What the system makes of each
-- call is the argument `Faults`: the theorems hold for all of its values, or name what they need.
pub mod Block
pub mod Text
pub mod Shape
pub mod Content
pub mod Calls
pub mod Sync
pub mod Managed
pub mod Remove
pub mod Damage
pub mod Unclosed
pub mod Names
mod Tests
use caddy_dev_local.Base.{
  ℕ, Bool, true, false, Option, none, some, List, [], ◌∷◌, ◌++◌, ◌||◌, ◌&&◌, not, ◌==◌, nat_eq,
  list_eq, nat_dec, list_dec, contains, if◌then◌else◌,
}
use caddy_dev_local.Base.Sort.{sort}
use caddy_dev_local.Str.{Str, codes, newline, split, join, trim_space, trim_right, str_le}
use caddy_dev_local.Tld.{tld_localhost}

abbrev pub begin_marker : Str
begin_marker = codes "# dev-local:BEGIN"

abbrev pub end_marker : Str
end_marker = codes "# dev-local:END"

abbrev pub managed_line : Str
managed_line = codes "# Managed by caddy-dev-local — do not edit."

-- The cut sets of the two calls of `strings.TrimRight`.
abbrev pub is_newline : ℕ → Bool
is_newline c = c == newline

abbrev pub is_line_end : ℕ → Bool
is_line_end c = c == newline || c == 13

-- `fmt.Fprintf(&sb, "127.0.0.1    %s\n", name)`, without its newline
abbrev pub host_line : Str → Str
host_line name = codes "127.0.0.1    " ++ name

-- The loop over the sorted domains, which skips the TLD.
unfoldable pub domain_lines : Str → List Str → List Str
domain_lines tld [] = []
domain_lines tld (d ∷ ds) =
    let rest = domain_lines tld ds in if d == tld then rest else host_line d ∷ rest

unfoldable pub alias_lines : Str → List Str → List Str
alias_lines tld sorted =
    if not (tld_localhost tld == tld) && not (contains sorted (tld_localhost tld))
    then host_line (tld_localhost tld) ∷ []
    else []

-- The lines that `buildBlock` writes, each of which it ends by a newline.
unfoldable pub block_lines : Str → List Str → List Str
unfolding domain_lines alias_lines sort
block_lines tld domains =
    let sorted = sort str_le domains in
    begin_marker
    ∷ managed_line
    ∷ host_line tld
    ∷ (alias_lines tld sorted ++ (domain_lines tld sorted ++ end_marker ∷ []))

-- Each line with the newline that ends it.
unfoldable pub lines_text : List Str → Str
lines_text [] = []
lines_text (l ∷ ls) = l ++ (newline ∷ lines_text ls)

unfoldable pub build_block : Str → List Str → Str
unfolding block_lines lines_text
build_block tld domains = lines_text (block_lines tld domains)

-- What the two loops test of a line.
pub data Mark : Type 0 where
  begin_mark end_mark plain : Mark

unfoldable pub mark : Str → Mark
unfolding trim_space nat_dec list_dec
mark line =
    if trim_space line == begin_marker
    then begin_mark
    else if trim_space line == end_marker
    then end_mark
    else plain

-- The loop of `readBlock`; the flag is `inBlock`.
unfoldable pub marked_lines : Bool → List Str → List Str
marked_lines in_block [] = []
marked_lines in_block (l ∷ ls) = elim (mark l) [
  | begin_mark ↦ l ∷ marked_lines true ls
  | end_mark ↦ l ∷ marked_lines false ls
  | plain ↦ let rest = marked_lines in_block ls in if in_block then l ∷ rest else rest
]

unfoldable pub joined_block : List Str → Str
unfolding join
joined_block [] = []
joined_block (l ∷ ls) = join newline (l ∷ ls) ++ newline ∷ []

-- `readBlock`, once the file is read
unfoldable pub block_of : Str → Str
unfolding marked_lines joined_block split
block_of content = joined_block (marked_lines false (split newline content))

-- What a begin marker is replaced by.
unfoldable pub replacement : Str → List Str
unfolding trim_right
replacement [] = []
replacement (c ∷ s) = trim_right is_newline (c ∷ s) ∷ []

-- The loop of `replaceBlock`.
unfoldable pub replaced_lines : Str → Bool → List Str → List Str
unfolding replacement
replaced_lines new in_block [] = []
replaced_lines new in_block (l ∷ ls) = elim (mark l) [
  | begin_mark ↦ replacement new ++ replaced_lines new true ls
  | end_mark ↦ replaced_lines new false ls
  | plain ↦ let rest = replaced_lines new in_block ls in if in_block then rest else l ∷ rest
]

unfoldable pub end_line : Str → Str
end_line [] = []
end_line (c ∷ s) = (c ∷ s) ++ newline ∷ []

unfoldable pub replace_block : Str → Str → Str
unfolding replaced_lines trim_right end_line join split
replace_block content new =
    end_line
      (trim_right is_newline (join newline (replaced_lines new false (split newline content))))

unfoldable pub appended : Str → Str → Str
appended [] expected = expected ++ newline ∷ []
appended (c ∷ s) expected = (c ∷ s) ++ (newline ∷ (expected ++ newline ∷ []))

-- `newContent` of `syncToFile`, from the content, the block in it and the block to write
unfoldable pub new_content : Str → Str → Str → Str
new_content content [] expected = appended (trim_right is_line_end content) expected
new_content content (c ∷ existing) expected = replace_block content expected

-- The hosts file and `path + ".devlocal.tmp"`; `none` is a file that does not exist.
pub record Disk : Type 0 where
  pub hosts : Option Str
  pub tmp : Option Str

-- Which calls fail, and what a failed write leaves in the file that it wrote to.
pub record Faults : Type 0 where
  pub windows : Bool
  pub first_read : Bool
  pub second_read : Bool
  pub write : Bool
  pub rename : Bool
  pub remove_tmp : Bool
  pub left : Option Str

pub data Status : Type 0 where
  done read_error write_error rename_error : Status

pub data Reading : Type 0 where
  missing unreadable : Reading
  content : Str → Reading

-- `os.ReadFile`
unfoldable pub read_file : Bool → Option Str → Reading
read_file true file = unreadable
read_file false none = missing
read_file false (some text) = content text

unfoldable pub write_hosts_file : Faults → Str → Disk → Status × Disk
write_hosts_file f text d =
    if f.windows
    then (if f.write
        then (write_error, record d { hosts = f.left })
        else (done, record d { hosts = some text }))
    else if f.write
    then (write_error, record d { tmp = f.left })
    else if f.rename
    then (rename_error, record d { tmp = if f.remove_tmp then some text else none })
    else (done, record d { hosts = some text; tmp = none })

-- `syncToFile` from the second read on
unfoldable pub write_block : Faults → Str → Str → Disk → Status × Disk
unfolding read_file write_hosts_file
write_block f expected existing d =
    if expected == existing then (done, d) else elim (read_file f.second_read d.hosts) [
      | unreadable ↦ (read_error, d)
      | missing ↦ write_hosts_file f (new_content [] existing expected) d
      | content text ↦ write_hosts_file f (new_content text existing expected) d
    ]

unfoldable pub sync_to_file : Faults → Str → List Str → Disk → Status × Disk
unfolding read_file write_block
sync_to_file f tld domains d = elim (read_file f.first_read d.hosts) [
  | unreadable ↦ (read_error, d)
  | missing ↦ write_block f (build_block tld domains) [] d
  | content text ↦ write_block f (build_block tld domains) (block_of text) d
]

-- `removeFromFile` from the test of the block on
unfoldable pub drop_block : Faults → Str → Disk → Status × Disk
unfolding read_file write_hosts_file
drop_block f [] d = (done, d)
drop_block f (c ∷ existing) d = elim (read_file f.second_read d.hosts) [
  | unreadable ↦ (read_error, d)
  | missing ↦ (read_error, d)
  | content text ↦ write_hosts_file f (replace_block text []) d
]

unfoldable pub remove_from_file : Faults → Disk → Status × Disk
unfolding read_file drop_block
remove_from_file f d = elim (read_file f.first_read d.hosts) [
  | unreadable ↦ (read_error, d)
  | missing ↦ (done, d)
  | content text ↦ drop_block f (block_of text) d
]
