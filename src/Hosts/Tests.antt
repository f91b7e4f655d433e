-- ===== src/Hosts/Tests.antt =====
-- The theorems on hosts/hosts.go at a small hosts file, and runs of the code.
use mathlib.Core.List.{Permᴰ}
use caddy_dev_local.Base.{
  ◌≡◌, ◌≢◌, refl, true, false, none, some, List, [], ◌∷◌, ◌++◌, arith, inl, All, nat_dec, list_dec,
}
use caddy_dev_local.Str.{Str, Lacks, codes, newline, join, split, trim_right}
use caddy_dev_local.Hosts.{
  Disk, Faults, done, rename_error, mark, begin_mark, end_mark, begin_marker, end_marker,
  block_lines, build_block, block_of, end_line, is_newline, sync_to_file, remove_from_file,
}
use caddy_dev_local.Hosts.Text.{IsPlain}
use caddy_dev_local.Hosts.Block.{HasBlock, NoMarker}
use caddy_dev_local.Hosts.Calls.{stored, Works, error_keeps_hosts}
use caddy_dev_local.Hosts.Sync.{block_of-sync_to_file}
use caddy_dev_local.Hosts.Remove.{remove_from_file-sync_to_file}
use caddy_dev_local.Hosts.Damage.{sync_of_lone_end}
use caddy_dev_local.Hosts.Unclosed.{sync_of_lone_begin}

abbrev tld : Str
tld = codes "t.x"

abbrev names : List Str
names = codes "b" ∷ codes "a" ∷ []

abbrev line : Str
line = codes "1 h"

abbrev no_faults : Faults
no_faults = record {
  windows = false;
  first_read = false;
  second_read = false;
  write = false;
  rename = false;
  remove_tmp = false;
  left = none;
}

abbrev rename_fails : Faults
rename_fails = record no_faults { rename = true }

abbrev disk : Disk
disk = record { hosts = some (line ++ newline ∷ []); tmp = none }

no_faults-Works : Works no_faults
no_faults-Works = record { reads = refl; reads_again = refl; writes = refl; renames = refl }

tld-Lacks : Lacks newline tld
tld-Lacks = omega arith

names-Lacks : All (Lacks newline) names
names-Lacks = omega arith

line-NoMarker : NoMarker (line ++ newline ∷ [])
unfolding mark split
line-NoMarker = (refl, (refl, tt))

block_of-sync_to_file_example :
    ((sync_to_file no_faults tld names disk).0 ≡ done)
    × (block_of (stored (sync_to_file no_faults tld names disk).1) ≡ build_block tld names)
block_of-sync_to_file_example =
    block_of-sync_to_file tld names tld-Lacks names-Lacks no_faults disk no_faults-Works
      (inl line-NoMarker)

remove_from_file-sync_to_file_example :
    stored (remove_from_file no_faults (sync_to_file no_faults tld names disk).1).1 ≡ stored disk
unfolding nat_dec
remove_from_file-sync_to_file_example =
    remove_from_file-sync_to_file tld names tld-Lacks names-Lacks (codes "1 ") b'h' refl no_faults
      no_faults disk no_faults-Works no_faults-Works refl line-NoMarker

error_keeps_hosts_example :
    ((sync_to_file rename_fails tld names disk).0 ≢ done
      → (sync_to_file rename_fails tld names disk).1.hosts ≡ disk.hosts)
    × ((remove_from_file rename_fails disk).0 ≢ done
        → (remove_from_file rename_fails disk).1.hosts ≡ disk.hosts)
error_keeps_hosts_example = error_keeps_hosts rename_fails tld names disk refl

names_swapped : Permᴰ names (codes "a" ∷ codes "b" ∷ [])
names_swapped = Permᴰ.swap refl refl

-- A file with a block, and one with an end marker only.
abbrev with_block : Str
with_block = join newline (line ∷ begin_marker ∷ codes "x" ∷ end_marker ∷ [] ∷ [])

with_block-HasBlock : HasBlock with_block
unfolding mark split join
with_block-HasBlock = record {
  before = line ∷ [];
  opening = begin_marker;
  inside = codes "x" ∷ [];
  closing = end_marker;
  after = [] ∷ [];
  shape = refl;
  opens = refl;
  closes = refl;
  plain_before = (refl, tt);
  plain_inside = (refl, tt);
  plain_after = (refl, tt);
}

abbrev end_only : Disk
end_only = record { hosts = some (join newline (line ∷ end_marker ∷ [] ∷ [])); tmp = none }

end_only_shape : split newline (stored end_only) ≡ (line ∷ []) ++ (end_marker ∷ ([] ∷ []))
unfolding split join
end_only_shape = refl

end_marker-closes : mark end_marker ≡ end_mark
unfolding mark
end_marker-closes = refl

line-IsPlain : All IsPlain (line ∷ [])
unfolding mark
line-IsPlain = (refl, tt)

nil-IsPlain : All IsPlain ([] ∷ [])
unfolding mark
nil-IsPlain = (refl, tt)

sync_of_lone_end_example :
    ((sync_to_file no_faults tld names end_only).0 ≡ done)
    × (block_of (stored (sync_to_file no_faults tld names end_only).1) ≡ [])
sync_of_lone_end_example =
    sync_of_lone_end tld names tld-Lacks names-Lacks (stored end_only) (line ∷ []) end_marker
      ([] ∷ []) end_only_shape end_marker-closes line-IsPlain nil-IsPlain no_faults end_only
      no_faults-Works refl

abbrev begin_only : Disk
begin_only = record { hosts = some (join newline (line ∷ begin_marker ∷ line ∷ [])); tmp = none }

begin_only_shape : split newline (stored begin_only) ≡ (line ∷ []) ++ (begin_marker ∷ (line ∷ []))
unfolding split join
begin_only_shape = refl

begin_marker-opens : mark begin_marker ≡ begin_mark
unfolding mark
begin_marker-opens = refl

sync_of_lone_begin_example :
    ((sync_to_file no_faults tld names begin_only).0 ≡ done)
    × (stored (sync_to_file no_faults tld names begin_only).1
        ≡ end_line (trim_right is_newline (join newline ((line ∷ []) ++ block_lines tld names))))
sync_of_lone_begin_example =
    sync_of_lone_begin tld names tld-Lacks names-Lacks (stored begin_only) (line ∷ []) begin_marker
      (line ∷ []) begin_only_shape begin_marker-opens line-IsPlain line-IsPlain no_faults begin_only
      no_faults-Works refl

rename_keeps : (sync_to_file rename_fails tld names disk).0 ≡ rename_error
unfolding sync_to_file list_dec build_block block_of mark
rename_keeps = refl
