-- ===== src/Caddy/Startup.antt =====
-- `initCaddyConfig` and `postDevlocalViaAPI` of caddy.go: from the user's configuration to the first
-- one that Caddy runs. Reading files, the parser, the adapters, the codec and `caddy.Load` are arguments.
pub mod Laws
pub mod Sent
use caddy_dev_local.Base.{
  ℕ, Bool, true, false, Option, none, some, [], ◌∷◌, ◌==◌, nat_eq, list_eq, nat_dec, list_dec,
  if◌then◌else◌, List,
}
use caddy_dev_local.Base.Dict.{Dict}
use caddy_dev_local.Base.Int.{ℤ, pos}
use caddy_dev_local.Str.{Str, codes}
use caddy_dev_local.Builder.{Json, Fields, DevlocalConfig, build_devlocal_config}
use caddy_dev_local.Admin.{Server, Codec, Log, Outcome, and_then, ensure_server, post_route}
use caddy_dev_local.Admin.Reconcile.{Known, reconcile_devlocal}
use caddy_dev_local.Cmd.Adapter.{adapter_for}
use caddy_dev_local.Caddy.{Api, Page, publish, save}
use caddy_dev_local.Caddy.Files.{Store}
use caddy_dev_local.Caddy.UserConfig.{
  Ports, Block, Adapters, Injected, codec_error, nil_map, injected, parse_caddyfile_listen_ports,
  is_positive, adapt_user_config, inject_listen_ports,
}

-- What the start uses of the file system and of Caddy.
pub record Tools : Type 0 where
  pub read_file : Str → Option Str
  pub parse : Str → Option (List Block)
  pub adapters : Adapters
  pub decode : Str → Option (Option Fields)
  pub encode : Fields → Option Str
  pub load : Str → Bool

abbrev pub default_ports : Ports
default_ports = record { http = pos 80; https = pos 443 }

-- `if parsedHTTP > 0 { httpPort = parsedHTTP }`, and the same for HTTPS
unfoldable pub positive_or_default : Ports → Ports
unfolding is_positive
positive_or_default parsed = record {
  http = if is_positive parsed.http then parsed.http else pos 80;
  https = if is_positive parsed.https then parsed.https else pos 443;
}

unfoldable pub parsed_or_error : Option Ports → Option Ports
unfolding positive_or_default
parsed_or_error none = none
parsed_or_error (some parsed) = some (positive_or_default parsed)

unfoldable pub with_text : Option Ports → Option Str → Option (Str × Ports)
with_text none adapted = none
with_text (some ports) none = none
with_text (some ports) (some json) = some (json, ports)

-- From the text of the user's configuration to its JSON and the ports to use; every error is `none`.
unfoldable pub adapt_text : Tools → Str → Str → Option (Str × Ports)
unfolding parsed_or_error with_text parse_caddyfile_listen_ports adapt_user_config nat_dec list_dec
adapt_text tools adapter_name source =
    with_text
      (if adapter_name == codes "caddyfile"
        then parsed_or_error (parse_caddyfile_listen_ports tools.parse source)
        else some default_ports)
      (adapt_user_config tools.adapters source adapter_name)

unfoldable pub user_config : Tools → Str → Option (Str × Ports)
unfolding adapt_text adapter_for
user_config tools [] = some (codes "{}", default_ports)
user_config tools (c ∷ path) = elim (tools.read_file (c ∷ path)) [
  | none ↦ none
  | some source ↦ adapt_text tools (adapter_for (c ∷ path)) source
]

-- An error, a panic, or the state after the start.
pub data Started : Type 0 where
  init_failed init_done : Api → Started
  init_panicked : Started

module _ (server : Server) (codec : Codec) where
  unfoldable pub reconcile_after : Known → DevlocalConfig → Outcome Unit → Bool × (Known × Log)
  reconcile_after known devlocal (none, log) = (false, (known, log))
  reconcile_after known devlocal (some _, log) =
      reconcile_devlocal server codec devlocal.routes devlocal.policies known log

  unfoldable pub post_devlocal_via_api : DevlocalConfig → Known → Log → Bool × (Known × Log)
  post_devlocal_via_api devlocal known log = reconcile_after known devlocal (
      and_then (ensure_server server codec log)
        (λ _ log'. post_route server devlocal.index_route log'))

  -- From the files of the index page on.
  unfoldable pub settle_init : Page → Str → DevlocalConfig → Api → Bool × (Log × Store) → Started
  settle_init page fp devlocal api (false, (log, st)) =
      init_failed (record api { log = log; store = st })
  settle_init page fp devlocal api (true, (log, st)) =
      init_done
        (record api { fingerprint = fp; log = log; store = save server codec page devlocal st })

  -- From the requests to the admin API on.
  unfoldable pub finish_init : Page → Str → DevlocalConfig → Api → Bool × (Known × Log) → Started
  finish_init page fp devlocal api (false, (known, log)) =
      init_failed (record api { known = known; log = log })
  finish_init page fp devlocal api (true, (known, log)) =
      settle_init page fp devlocal (record api { known = known; log = log })
        (publish server codec page fp log api.store)

  -- From `caddy.Load` on.
  unfoldable pub load_and_post : Tools → Page → Str → Str → DevlocalConfig → Api → Started
  load_and_post tools page fp user_json devlocal api =
      if tools.load user_json
      then finish_init page fp devlocal api (post_devlocal_via_api devlocal api.known api.log)
      else init_failed api

  unfoldable pub init_with : Tools → Page → Str → Option DevlocalConfig → Api → Injected → Started
  init_with tools page fp devlocal api codec_error = init_failed api
  init_with tools page fp devlocal api nil_map = init_panicked
  init_with tools page fp none api (injected user_json) = init_failed api
  init_with tools page fp (some devlocal) api (injected user_json) =
      load_and_post tools page fp user_json devlocal api

  unfoldable pub init_from :
      Tools → Page → Str → Option DevlocalConfig → Api → Option (Str × Ports) → Started
  init_from tools page fp devlocal api none = init_failed api
  init_from tools page fp devlocal api (some (user_json, ports)) =
      init_with tools page fp devlocal api
        (inject_listen_ports tools.decode tools.encode user_json ports.http ports.https)

  -- `initCaddyConfig`, from the domains, the fingerprint of the state and the settings
  unfoldable pub init_caddy_config :
      (Json → Option Str)
      → Tools
      → Page
      → Str
      → Str
      → Str
      → Str
      → Dict Str (List Str)
      → Bool
      → Api
      → Started
  init_caddy_config marshal tools page fp user_path tld index_dir targets tracing api =
      init_from tools page fp (build_devlocal_config marshal tld index_dir targets tracing) api
        (user_config tools user_path)
