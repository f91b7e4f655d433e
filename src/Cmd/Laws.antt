-- ===== src/Cmd/Laws.antt =====
-- What `applyDevlocal` of cmd.go leaves, and what a second one does.
use caddy_dev_local.Base.{
  ◌≡◌, ◌≢◌, refl, sym, ap, ◌∙◌, Bool, true, false, Bool-cases, inl, inr, All, not, ◌||◌, arith,
}
use caddy_dev_local.Str.{Lacks, newline}
use caddy_dev_local.Config.{Config}
use caddy_dev_local.Generator.{Containers}
use caddy_dev_local.Generator.Domains.{domains, domain_targets}
use caddy_dev_local.Discovery.{Status}
use caddy_dev_local.Caddy.{Api, unchanged, failed}
use caddy_dev_local.Caddy.Reload.{reload-RunsAgain}
use caddy_dev_local.Cmd.{
  Env, App, Weather, state_fingerprint, state_page, reload_state, sync_hosts, apply_devlocal,
}
use caddy_dev_local.Hosts
use caddy_dev_local.Hosts.{Disk, done, build_block, block_of, sync_to_file}
use caddy_dev_local.Hosts.Calls.{stored, Works}
use caddy_dev_local.Hosts.Sync.{IsManaged, block_of-sync_to_file, sync_to_file_twice}

module _ (env : Env) (cfg : Config) where
  pub apply_idle :
      (w : Weather) (hosts_ok : Bool) (app : App)
      → app.busy ≡ false
      → apply_devlocal env cfg w hosts_ok app ≡ record app {
        api = (reload_state env cfg w app.containers app.status app.api).1;
        disk = (sync_hosts env cfg w.hosts_faults hosts_ok app.containers app.disk).1;
      }
  unfolding apply_devlocal
  apply_idle w hosts_ok app h = ground (arith, h)

  -- While another application holds the lock, nothing changes.
  apply_busy :
      (w : Weather) (hosts_ok : Bool) (app : App)
      → app.busy ≡ true
      → apply_devlocal env cfg w hosts_ok app ≡ app
  unfolding apply_devlocal
  apply_busy w hosts_ok app h = ground (arith, h)

  reload_again :
      (w w' : Weather) (m : Containers) (st : Status) (api : Api)
      → (reload_state env cfg w m st api).0 ≢ failed
      → reload_state env cfg w' m st (reload_state env cfg w m st api).1
        ≡ (unchanged, (reload_state env cfg w m st api).1)
  unfolding reload_state
  reload_again w w' m st api h =
      (reload-RunsAgain env.server env.codec env.marshal cfg.tld env.index_dir
          (domain_targets cfg m) cfg.tracing (state_page env cfg w m st)
          (state_page env cfg w' m st) (state_fingerprint env cfg m st) api).1
        h

  -- The names are one line each.
  abbrev pub IsNamed : Containers → Type 0
  IsNamed m = Lacks newline cfg.tld × All (Lacks newline) (domains cfg m)

  sync_hosts_again :
      (f f' : Hosts.Faults) (hosts_ok : Bool) (m : Containers) (d : Disk)
      → IsNamed m
      → Works f
      → Works f'
      → IsManaged (stored d)
      → (sync_hosts env cfg f' hosts_ok m (sync_hosts env cfg f hosts_ok m d).1).1
        ≡ (sync_hosts env cfg f hosts_ok m d).1
  unfolding sync_hosts
  sync_hosts_again f f' hosts_ok m d n w w' h =
      elim (Bool-cases (not cfg.hosts_file || not hosts_ok)) [
        | inl e ↦ rw e refl
        | inr e ↦
            rw e (ap (λ r. r.1) (sync_to_file_twice cfg.tld (domains cfg m) n.0 n.1 f f' d w w' h))
      ]

  abbrev applied_state : Weather → Bool → App → App
  applied_state w hosts_ok app = record app {
    api = (reload_state env cfg w app.containers app.status app.api).1;
    disk = (sync_hosts env cfg w.hosts_faults hosts_ok app.containers app.disk).1;
  }

  same_state :
      (w w' : Weather) (hosts_ok : Bool) (app : App)
      → IsNamed app.containers
      → Works w.hosts_faults
      → Works w'.hosts_faults
      → IsManaged (stored app.disk)
      → (reload_state env cfg w app.containers app.status app.api).0 ≢ failed
      → applied_state w' hosts_ok (applied_state w hosts_ok app) ≡ applied_state w hosts_ok app
  same_state w w' hosts_ok app n f f' h r = λ i. record app {
    api = (reload_again w w' app.containers app.status app.api r i).1;
    disk =
        sync_hosts_again w.hosts_faults w'.hosts_faults hosts_ok app.containers app.disk n f f' h i;
  }

  -- Applying a state twice is applying it once, whatever the time and the files of the index page do:
  -- if the first reload does not fail and no call on the hosts file does, a second application sends
  -- nothing and writes nothing. The hosts file may hold no marker or one block, and the names are one
  -- line each.
  pub apply_devlocal_twice :
      (w w' : Weather) (hosts_ok : Bool) (app : App)
      → IsNamed app.containers
      → Works w.hosts_faults
      → Works w'.hosts_faults
      → IsManaged (stored app.disk)
      → (reload_state env cfg w app.containers app.status app.api).0 ≢ failed
      → apply_devlocal env cfg w' hosts_ok (apply_devlocal env cfg w hosts_ok app)
        ≡ apply_devlocal env cfg w hosts_ok app
  apply_devlocal_twice w w' hosts_ok app n f f' h r = elim (Bool-cases app.busy) [
    | inl e ↦
        ap (apply_devlocal env cfg w' hosts_ok) (apply_busy w hosts_ok app e)
        ∙ (apply_busy w' hosts_ok app e ∙ sym (apply_busy w hosts_ok app e))
    | inr e ↦
        let once = apply_idle w hosts_ok app e in
        ap (apply_devlocal env cfg w' hosts_ok) once
        ∙ (apply_idle w' hosts_ok (applied_state w hosts_ok app) e
            ∙ (same_state w w' hosts_ok app n f f' h r ∙ sym once))
  ]

  pub sync_on :
      (f : Hosts.Faults) (m : Containers) (d : Disk)
      → cfg.hosts_file ≡ true
      → sync_hosts env cfg f true m d ≡ sync_to_file f cfg.tld (domains cfg m) d
  unfolding sync_hosts
  sync_on f m d on = ground (arith, on)

  pub synced :
      (f : Hosts.Faults) (m : Containers) (d : Disk)
      → cfg.hosts_file ≡ true
      → IsNamed m
      → Works f
      → IsManaged (stored d)
      → block_of (stored (sync_hosts env cfg f true m d).1) ≡ build_block cfg.tld (domains cfg m)
  synced f m d on n w h =
      ap (λ r. block_of (stored r.1)) (sync_on f m d on)
      ∙ (block_of-sync_to_file cfg.tld (domains cfg m) n.0 n.1 f d w h).1

  -- After an application with a working hosts file, the block in it is that of the domains.
  pub block_of-apply_devlocal :
      (w : Weather) (app : App)
      → app.busy ≡ false
      → cfg.hosts_file ≡ true
      → IsNamed app.containers
      → Works w.hosts_faults
      → IsManaged (stored app.disk)
      → block_of (stored (apply_devlocal env cfg w true app).disk)
        ≡ build_block cfg.tld (domains cfg app.containers)
  block_of-apply_devlocal w app idle on n f h =
      ap (λ a. block_of (stored a.disk)) (apply_idle w true app idle)
      ∙ synced w.hosts_faults app.containers app.disk on n f h
