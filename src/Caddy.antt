-- ===== src/Caddy.antt =====
-- caddy.go: when the configuration is sent again, and the fingerprint that decides it.
-- The hash, the JSON encoders and the server are arguments.
pub mod Files
pub mod UserConfig
pub mod Startup
pub mod Fingerprint
pub mod Reload
pub mod Applied
mod Tests
use caddy_dev_local.Base.{
  ℕ, Bool, true, false, Option, none, some, List, [], ◌∷◌, ◌++◌, ◌==◌, nat_eq, list_eq,
  if◌then◌else◌,
}
use caddy_dev_local.Base.Dict.{Dict, lookup, keys}
use caddy_dev_local.Base.Sort.{sort}
use caddy_dev_local.Str.{Str, codes, newline, str_le}
use caddy_dev_local.Generator.{ContainerInfo}
use caddy_dev_local.Builder.{Json, DevlocalConfig, or_nil, build_devlocal_config}
use caddy_dev_local.Admin.{Server, Codec, Log}
use caddy_dev_local.Caddy.Files.{
  Faults, Store, fetch_running_config, write_index_artifacts, write_autosave,
}
use caddy_dev_local.Admin.Reconcile.{Known, reconcile_devlocal}

-- Each text with the zero byte that ends it.
unfoldable pub ended_by_zero : List Str → Str
ended_by_zero [] = []
ended_by_zero (t ∷ ts) = t ++ (0 ∷ ended_by_zero ts)

-- What is written for the domains in order.
unfoldable pub domains_text : Dict Str (List Str) → List Str → Str
domains_text targets [] = []
domains_text targets (d ∷ ds) =
    ended_by_zero (d ∷ sort str_le (or_nil (lookup d targets)))
    ++ (newline ∷ domains_text targets ds)

unfoldable pub fingerprint_domains : (Str → Str) → Dict Str (List Str) → Str
fingerprint_domains hash targets = hash (domains_text targets (sort str_le (keys targets)))

unfoldable pub id_le : ContainerInfo → ContainerInfo → Bool
id_le a b = str_le a.container_id b.container_id

-- The JSON of the containers may fail.
unfoldable pub with_containers : (Str → Str) → Option Str → Str → Str → Str
with_containers hash none domains error = domains ++ (0 ∷ error)
with_containers hash (some state) domains error = hash (domains ++ (0 ∷ (state ++ error)))

unfoldable pub fingerprint_state :
    (Str → Str)
    → (List ContainerInfo → Option Str)
    → Dict Str (List Str)
    → List ContainerInfo
    → Str
    → Str
fingerprint_state hash encode targets containers error =
    with_containers hash (encode (sort id_le containers)) (fingerprint_domains hash targets) error

-- The fields of `adminAPI` that a reload reads and writes, the requests so far, the configuration that
-- was read last and the index directory.
pub record Api : Type 0 where
  pub fingerprint : Str
  pub known : Known
  pub log : Log
  pub store : Store

-- Nothing to apply, an error, or a configuration that was applied.
pub data Reloaded : Type 0 where
  unchanged failed applied : Reloaded

-- What a reload uses of the rest of the program: the template with what it shows besides the
-- configuration, `json.Indent`, the encoders of the version and of the autosave, the style sheet, the
-- point in time, and which calls on files fail.
pub record Page : Type 0 where
  pub render : Str → Str
  pub indent : Str → Option Str
  pub css : Str
  pub encode_version : Str → ℕ → Option Str
  pub encode_autosave : DevlocalConfig → Option Str
  pub now : ℕ
  pub faults : Faults

module _ (server : Server) (codec : Codec) where
  unfoldable pub write_page : Page → Str → Str × (Log × Store) → Bool × (Log × Store)
  write_page page fp (config, (log, st)) =
      let w =
        write_index_artifacts page.css page.encode_version page.faults (page.render config) fp
          page.now st.dir in
      (w.0, (log, record st { dir = w.1 }))

  -- `GenerateIndexPage` with `fetchRunningConfig`, and `writeIndexArtifacts`
  unfoldable pub publish : Page → Str → Log → Store → Bool × (Log × Store)
  publish page fp log st = write_page page fp (fetch_running_config server page.indent log st)

  unfoldable pub save : Page → DevlocalConfig → Store → Store
  save page devlocal st = record st {
    dir =
        write_autosave page.css page.encode_version page.faults (page.encode_autosave devlocal)
          st.dir;
  }

  -- From the files on: whether the reconciliation succeeded, and whether writing the files did.
  unfoldable pub settle_reload :
      Page → Str → DevlocalConfig → Bool → Api → Bool × (Log × Store) → Reloaded × Api
  settle_reload page fp devlocal false api (written, (log, st)) =
      (failed, record api { log = log; store = st })
  settle_reload page fp devlocal true api (false, (log, st)) =
      (failed, record api { log = log; store = st })
  settle_reload page fp devlocal true api (true, (log, st)) =
      (applied, record api { fingerprint = fp; log = log; store = save page devlocal st })

  -- From the reconciliation on.
  unfoldable pub finish_reload :
      Page → Str → DevlocalConfig → Api → Bool × (Known × Log) → Reloaded × Api
  finish_reload page fp devlocal api (ok, (known, log)) =
      settle_reload page fp devlocal ok (record api { known = known; log = log })
        (publish page fp log api.store)

  unfoldable pub reload_with : Page → Str → Option DevlocalConfig → Api → Reloaded × Api
  reload_with page fp none api = (failed, api)
  reload_with page fp (some devlocal) api =
      finish_reload page fp devlocal api
        (reconcile_devlocal server codec devlocal.routes devlocal.policies api.known api.log)

  -- `reloadCaddyConfig`, from the domains, their fingerprint and the settings
  unfoldable pub reload_caddy_config :
      (Json → Option Str)
      → Page
      → Str
      → Str
      → Str
      → Dict Str (List Str)
      → Bool
      → Api
      → Reloaded × Api
  reload_caddy_config marshal page fp tld index_dir targets tracing api =
      if fp == api.fingerprint
      then (unchanged, api)
      else reload_with page fp (build_devlocal_config marshal tld index_dir targets tracing) api
