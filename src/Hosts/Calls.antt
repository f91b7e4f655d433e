-- ===== src/Hosts/Calls.antt =====
-- `syncToFile` and `removeFromFile` on the disk: what they compute when no call fails, and what a
-- failed call leaves.
use caddy_dev_local.Base.{
  ◌≡◌, ◌≢◌, refl, sym, ap, ◌∙◌, false, Option, none, some, List, [], ◌∷◌, arith, ◌==◌, list_eq,
  nat_eq, list_dec, if◌then◌else◌,
}
use caddy_dev_local.Str.{Str, split}
use caddy_dev_local.Hosts.{
  Disk, Faults, Status, done, build_block, block_of, replace_block, new_content, write_hosts_file,
  write_block, sync_to_file, drop_block, remove_from_file, marked_lines, joined_block, mark,
}

-- The content of the hosts file; a missing file counts as empty.
abbrev pub stored : Disk → Str
stored d = elim d.hosts [ none ↦ [] | some text ↦ text ]

-- Every call succeeds.
pub record Works (f : Faults) : Type 0 where
  pub reads : f.first_read ≡ false
  pub reads_again : f.second_read ≡ false
  pub writes : f.write ≡ false
  pub renames : f.rename ≡ false

pub block_of-nil : block_of [] ≡ []
unfolding block_of split marked_lines mark joined_block
block_of-nil = refl

-- The disk after a write that succeeds.
pub wrote : Faults → Str → Disk → Disk
wrote f text d =
    if f.windows then record d { hosts = some text } else record d { hosts = some text; tmp = none }

pub stored-wrote : (f : Faults) (text : Str) (d : Disk) → stored (wrote f text d) ≡ text
unfolding wrote
stored-wrote f text d = ground arith

write_block-eq :
    (f : Faults) (expected existing : Str) (d : Disk)
    → Works f
    → write_block f expected existing d ≡ (
        if expected == existing
        then (done, d)
        else (done, wrote f (new_content (stored d) existing expected) d))
unfolding write_block wrote
write_block-eq f expected existing d w = ground arith

-- The disk with its hosts file given.
abbrev with_hosts : Option Str → Disk → Disk
with_hosts file d = record d { hosts = file }

sync_to_file-missing :
    (f : Faults) (tld : Str) (domains : List Str) (d : Disk)
    → f.first_read ≡ false
    → sync_to_file f tld domains (with_hosts none d)
      ≡ write_block f (build_block tld domains) [] (with_hosts none d)
unfolding sync_to_file
sync_to_file-missing f tld domains d h = ground arith

sync_to_file-write :
    (f : Faults) (tld : Str) (domains : List Str) (file : Option Str) (d : Disk)
    → f.first_read ≡ false
    → sync_to_file f tld domains (with_hosts file d)
      ≡ write_block f
          (build_block tld domains)
          (block_of (stored (with_hosts file d)))
          (with_hosts file d)
sync_to_file-write f tld domains none d h =
    sync_to_file-missing f tld domains d h
    ∙ ap (λ e. write_block f (build_block tld domains) e (with_hosts none d)) (sym block_of-nil)
sync_to_file-write f tld domains (some text) d h = unfold sync_to_file in ground arith

-- What `syncToFile` computes when no call fails.
pub sync_to_file-eq :
    (f : Faults) (tld : Str) (domains : List Str) (d : Disk)
    → Works f
    → sync_to_file f tld domains d ≡ (
        if build_block tld domains == block_of (stored d) then (done, d) else (
          done,
          wrote f (new_content (stored d) (block_of (stored d)) (build_block tld domains)) d,
        ))
sync_to_file-eq f tld domains d w =
    sync_to_file-write f tld domains d.hosts d w.reads
    ∙ write_block-eq f (build_block tld domains) (block_of (stored d)) d w

drop_block-eq :
    (f : Faults) (existing text : Str) (d : Disk)
    → Works f
    → drop_block f existing (with_hosts (some text) d) ≡ (
        if existing == []
        then (done, with_hosts (some text) d)
        else (done, wrote f (replace_block text []) (with_hosts (some text) d)))
unfolding drop_block wrote list_dec
drop_block-eq f [] text d w = refl
drop_block-eq f (c ∷ existing) text d w = ground arith

remove_from_file-missing :
    (f : Faults) (d : Disk)
    → f.first_read ≡ false
    → remove_from_file f (with_hosts none d) ≡ (done, with_hosts none d)
unfolding remove_from_file
remove_from_file-missing f d h = ground arith

remove_from_file-some :
    (f : Faults) (text : Str) (d : Disk)
    → f.first_read ≡ false
    → remove_from_file f (with_hosts (some text) d)
      ≡ drop_block f (block_of text) (with_hosts (some text) d)
unfolding remove_from_file
remove_from_file-some f text d h = ground arith

remove_from_file-file :
    (f : Faults) (file : Option Str) (d : Disk)
    → Works f
    → remove_from_file f (with_hosts file d) ≡ (
        if block_of (stored (with_hosts file d)) == []
        then (done, with_hosts file d)
        else (done, wrote f (replace_block (stored (with_hosts file d)) []) (with_hosts file d)))
remove_from_file-file f none d w =
    ◌∙◌ {b = (done, with_hosts none d)} (remove_from_file-missing f d w.reads)
      (ground (arith, block_of-nil))
remove_from_file-file f (some text) d w =
    remove_from_file-some f text d w.reads ∙ drop_block-eq f (block_of text) text d w

-- What `removeFromFile` computes when no call fails.
pub remove_from_file-eq :
    (f : Faults) (d : Disk)
    → Works f
    → remove_from_file f d ≡ (
        if block_of (stored d) == []
        then (done, d)
        else (done, wrote f (replace_block (stored d) []) d))
remove_from_file-eq f d w = remove_from_file-file f d.hosts d w

write_hosts_file-Keeps :
    (f : Faults) (text : Str) (d : Disk)
    → f.windows ≡ false
    → (write_hosts_file f text d).0 ≢ done
    → (write_hosts_file f text d).1.hosts ≡ d.hosts
unfolding write_hosts_file
write_hosts_file-Keeps f text d h = ground arith

abbrev Keeps : Disk → Status × Disk → Type 0
Keeps d r = r.0 ≢ done → r.1.hosts ≡ d.hosts

write_block-Keeps :
    (f : Faults) (expected existing : Str) (d : Disk)
    → f.windows ≡ false
    → Keeps d (write_block f expected existing d)
unfolding write_block
write_block-Keeps f expected existing d h = ground (
  arith,
  write_hosts_file-Keeps f (new_content [] existing expected) d,
  write_hosts_file-Keeps f (new_content (stored d) existing expected) d,
)

drop_block-Keeps :
    (f : Faults) (existing : Str) (d : Disk) → f.windows ≡ false → Keeps d (drop_block f existing d)
unfolding drop_block
drop_block-Keeps f [] d h = ground arith
drop_block-Keeps f (c ∷ existing) d h =
    ground (arith, write_hosts_file-Keeps f (replace_block (stored d) []) d)

sync-Keeps :
    (f : Faults) (tld : Str) (domains : List Str) (file : Option Str) (d : Disk)
    → f.windows ≡ false
    → Keeps (with_hosts file d) (sync_to_file f tld domains (with_hosts file d))
unfolding sync_to_file
sync-Keeps f tld domains none d h =
    ground (arith, write_block-Keeps f (build_block tld domains) [] (with_hosts none d) h)
sync-Keeps f tld domains (some text) d h = ground (
  arith,
  write_block-Keeps f (build_block tld domains) (block_of text) (with_hosts (some text) d) h,
)

remove-Keeps :
    (f : Faults) (file : Option Str) (d : Disk)
    → f.windows ≡ false
    → Keeps (with_hosts file d) (remove_from_file f (with_hosts file d))
unfolding remove_from_file
remove-Keeps f none d h = ground arith
remove-Keeps f (some text) d h =
    ground (arith, drop_block-Keeps f (block_of text) (with_hosts (some text) d) h)

-- Except on Windows, a sync or a removal that reports an error has left the hosts file as it was,
-- whichever calls failed.
pub error_keeps_hosts :
    (f : Faults) (tld : Str) (domains : List Str) (d : Disk)
    → f.windows ≡ false
    → ((sync_to_file f tld domains d).0 ≢ done → (sync_to_file f tld domains d).1.hosts ≡ d.hosts)
      × ((remove_from_file f d).0 ≢ done → (remove_from_file f d).1.hosts ≡ d.hosts)
error_keeps_hosts f tld domains d h =
    (sync-Keeps f tld domains d.hosts d h, remove-Keeps f d.hosts d h)
