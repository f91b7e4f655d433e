-- ===== src/Cmd/Turns/Tracks/Tests.antt =====
-- The turns that follow the start, with a hash that keeps texts apart.
use caddy_dev_local.Base.{◌≡◌, refl, false, Option, none, some, [], ◌∷◌, inl}
use caddy_dev_local.Str.{codes, str_le}
use caddy_dev_local.Builder.{
  DevlocalConfig, replace_dot, route_id, add_routes, build_policies, with_index_route,
  build_devlocal_config,
}
use caddy_dev_local.Caddy.{
  applied, fingerprint_domains, domains_text, with_containers, fingerprint_state, write_page,
  publish, settle_reload, finish_reload, reload_with, reload_caddy_config,
}
use caddy_dev_local.Cmd.{Env, App, apply_devlocal, reload_state, state_page, state_fingerprint}
use caddy_dev_local.Admin.{
  and_then, only_if, is_success, decoded_policies, tries, do_request, request, get_config, do_post,
  post_route, get_status, ensure_resource, ensure_server, settle_policies, write_policies,
  merge_policy, prepend_tls_policy,
}
use caddy_dev_local.Admin.Patch.{removed_entries, updated_entries, added_entries, compute_patch}
use caddy_dev_local.Admin.Reconcile.{
  is_empty, delete_all, update_all, add_all, apply_patch, ensure_if, send_all, remember,
  reconcile_devlocal,
}
use caddy_dev_local.Base.Dict.{lookup, keep_if}
use caddy_dev_local.Base.Sort.{sort}
use caddy_dev_local.Caddy.Files.{fetch_running_config, write_index_artifacts}
use caddy_dev_local.Discovery.{run_refresh, set_error}
use caddy_dev_local.Generator.Domains.{merge_targets, sort_targets, domain_targets}
use caddy_dev_local.Generator.Select.{refresh_and_select}
use caddy_dev_local.Caddy.Startup.Laws.{known_of}
use caddy_dev_local.Generator.Samples.{cfg}
use caddy_dev_local.Cmd.Start.{no_status}
use caddy_dev_local.Cmd.Samples.{weather}
use caddy_dev_local.Cmd.Samples
use caddy_dev_local.Cmd.Turns.{
  Turn, refresh_turn, refresh_error, settle_refresh, run_refresh_and_select, before_apply,
  apply_after, turn, turns,
}
use caddy_dev_local.Cmd.Turns.Tracks.{Built, Tracks, NoFailure, turns-Tracks}

abbrev env : Env
env = record Samples.env { hash = λ s. s }

abbrev built_or : Option DevlocalConfig → DevlocalConfig
built_or none = record { routes = []; policies = []; index_route = [] }
built_or (some devlocal) = devlocal

-- The configuration without a container.
abbrev devlocal : DevlocalConfig
devlocal =
    built_or
      (build_devlocal_config env.marshal cfg.tld env.index_dir (domain_targets cfg []) cfg.tracing)

devlocal-Built : Built env cfg [] devlocal
unfolding add_routes build_policies with_index_route build_devlocal_config merge_targets
    sort_targets domain_targets sort
devlocal-Built = refl

abbrev start : App
start = record {
  containers = [];
  status = no_status;
  api = record {
    fingerprint = state_fingerprint env cfg [] no_status;
    known = known_of devlocal;
    log = [];
    store = record { last_config = none; dir = Samples.no_files };
  };
  busy = false;
  disk = record { hosts = none; tmp = none };
}

abbrev fails : Turn
fails =
    refresh_turn
      (record { now = 1; hostname = []; answer = inl (codes "down"); probe = λ host ports. none })
      weather

start-Tracks : Tracks env cfg start
start-Tracks = (refl, refl, ([], no_status, devlocal, refl, devlocal-Built, refl))

abbrev refreshed_start : App
refreshed_start = record start {
  status = record {
    last_error = codes "listing containers: down";
    last_error_at = some 1;
    last_refresh = none;
  };
}

-- The error in the page is a new state, so the turn applies it.
applies :
    (reload_state env cfg weather refreshed_start.containers refreshed_start.status
      refreshed_start.api).0
    ≡ applied
unfolding merge_targets sort_targets domain_targets sort lookup str_le replace_dot route_id
    add_routes build_policies with_index_route build_devlocal_config and_then only_if is_success
    decoded_policies tries do_request request get_config do_post post_route get_status
    ensure_resource ensure_server settle_policies write_policies merge_policy prepend_tls_policy
    is_empty delete_all update_all add_all apply_patch ensure_if send_all remember
    reconcile_devlocal removed_entries updated_entries added_entries compute_patch with_containers
    fingerprint_state write_page publish settle_reload finish_reload reload_with reload_caddy_config
    fetch_running_config write_index_artifacts reload_state state_page state_fingerprint keep_if
    fingerprint_domains domains_text
applies = refl

fails-NoFailure : NoFailure env cfg false (fails ∷ []) (some start)
unfolding before_apply run_refresh_and_select settle_refresh refresh_error refresh_and_select
    run_refresh set_error
fails-NoFailure = ((λ h. cc (h, applies)), tt)

abbrev or_start : Option App → App
or_start none = start
or_start (some app) = app

abbrev end : App
end = or_start (turns env cfg false (fails ∷ []) (some start))

ends : turns env cfg false (fails ∷ []) (some start) ≡ some end
unfolding turns turn apply_after apply_devlocal before_apply run_refresh_and_select settle_refresh
    refresh_error refresh_and_select
ends = refl

turns-Tracks_example : Tracks env cfg end
turns-Tracks_example =
    turns-Tracks env cfg false (fails ∷ []) start end fails-NoFailure start-Tracks ends
