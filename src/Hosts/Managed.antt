-- ===== src/Hosts/Managed.antt =====
-- `syncToFile`: the hosts file that a sync leaves can be synced again.
use mathlib.Core.Path.{subst}
use caddy_dev_local.Base.{
  refl, sym, ◌∙◌, Bool, true, false, List, append_assoc, All, inr, ◌==◌, list_eq, nat_eq,
  if◌then◌else◌,
}
use caddy_dev_local.Str.{Str, Lacks, newline}
use caddy_dev_local.Hosts.{
  Disk, Faults, Status, done, begin_marker, end_marker, build_block, block_of, new_content,
  sync_to_file,
}
use caddy_dev_local.Hosts.Calls.{stored, Works, wrote, stored-wrote, sync_to_file-eq}
use caddy_dev_local.Hosts.Block.{
  HasBlock, block_body, block_lines-eq, block_body-IsPlain, begin_marker-mark, end_marker-mark,
}
use caddy_dev_local.Hosts.Sync.{IsManaged, IsWritten, new_content-IsWritten}

module _ (tld : Str) (domains : List Str) where
  written-HasBlock : (c : Str) → IsWritten tld domains c → HasBlock c
  written-HasBlock c (before, after, hb, ha, e) = record {
    before = before;
    opening = begin_marker;
    inside = block_body tld domains;
    closing = end_marker;
    after = after;
    shape = e ∙ rw (block_lines-eq tld domains, append_assoc) refl;
    opens = begin_marker-mark;
    closes = end_marker-mark;
    plain_before = hb;
    plain_inside = block_body-IsPlain tld domains;
    plain_after = ha;
  }

  if_wrote-IsManaged :
      (f : Faults) (d : Disk) (text : Str) (same : Bool)
      → IsManaged (stored d)
      → IsManaged text
      → IsManaged
          (stored (if◌then◌else◌ {A = Status × Disk} same (done, d) (done, wrote f text d)).1)
  if_wrote-IsManaged f d text true m w = m
  if_wrote-IsManaged f d text false m w = subst IsManaged (sym (stored-wrote f text d)) w

  -- If no call fails, a sync of a hosts file with no marker or one block leaves such a hosts file.
  pub sync_to_file-IsManaged :
      Lacks newline tld
      → All (Lacks newline) domains
      → (f : Faults) (d : Disk) → Works f
      → IsManaged (stored d)
      → IsManaged (stored (sync_to_file f tld domains d).1)
  sync_to_file-IsManaged ht hd f d w m =
      subst (λ r. IsManaged (stored r.1)) (sym (sync_to_file-eq f tld domains d w))
        (if_wrote-IsManaged f d
          (new_content (stored d) (block_of (stored d)) (build_block tld domains))
          (build_block tld domains == block_of (stored d)) m
          (inr (written-HasBlock _ (new_content-IsWritten tld domains ht hd (stored d) m))))
