-- ===== src/Cmd/Tests.antt =====
-- The commands at a server that accepts every request.
use caddy_dev_local.Builder.{
  add_routes, build_devlocal_config, replace_dot, build_policies, with_index_route, route_id,
}
use caddy_dev_local.Admin.Reconcile.{
  add_all, remember, delete_all, is_empty, update_all, send_all, ensure_if, reconcile_devlocal,
  apply_patch,
}
use caddy_dev_local.Base.Sort.{sort}
use caddy_dev_local.Admin.Patch.{updated_entries, added_entries, removed_entries, compute_patch}
use caddy_dev_local.Base.{◌≡◌, ◌≢◌, refl, true, [], ◌==◌, nat_eq, list_eq, nat_dec, list_dec, inl}
use caddy_dev_local.Base.Dict.{lookup, insert}
use caddy_dev_local.Str.{codes, str_le}
use caddy_dev_local.Generator.Samples.{cfg}
use caddy_dev_local.Generator.{domain_for_container, domain_for_container_localhost}
use caddy_dev_local.Generator.Domains.{
  domain_targets, add_target, sort_targets, add_selected, add_by_custom, add_container,
  merge_targets,
}
use caddy_dev_local.Admin.{
  is_success, request, post_route, ensure_resource, ensure_server, merge_policy, write_policies,
  tries, prepend_tls_policy, get_status, do_request, get_config, do_post, and_then, settle_policies,
  decoded_policies, only_if,
}
use caddy_dev_local.Caddy.{
  failed, applied, reload_caddy_config, fingerprint_state, write_page, reload_with, with_containers,
  settle_reload, publish, finish_reload,
}
use caddy_dev_local.Caddy.Files.{fetch_running_config, write_index_artifacts}
use caddy_dev_local.Cmd.{reload_state, apply_devlocal, state_fingerprint, state_page}
use caddy_dev_local.Cmd.Adapter.{adapter_for, config_path}
use caddy_dev_local.Cmd.Laws.{apply_devlocal_twice}
use caddy_dev_local.Cmd.Samples.{env, weather, app, app-IsNamed, hosts_faults-Works, app-NoMarker}

adapter_of_yaml : adapter_for (codes "a.b/Caddyfile.YAML") ≡ codes "yaml"
unfolding adapter_for
adapter_of_yaml = refl

adapter_of_dir : adapter_for (codes "a.json/Caddyfile") ≡ codes "caddyfile"
unfolding adapter_for
adapter_of_dir = refl

path_of_file : config_path [] [] (λ name. name == codes "Caddyfile.json") ≡ codes "Caddyfile.json"
unfolding config_path nat_dec list_dec
path_of_file = refl

app_reloads : (reload_state env cfg weather app.containers app.status app.api).0 ≡ applied
unfolding add_target add_selected add_by_custom add_container merge_targets sort_targets
    domain_targets sort lookup insert str_le domain_for_container_localhost domain_for_container
    replace_dot route_id add_routes build_policies with_index_route build_devlocal_config and_then
    only_if is_success decoded_policies tries do_request request get_config do_post post_route
    get_status ensure_resource ensure_server settle_policies write_policies merge_policy
    prepend_tls_policy is_empty delete_all update_all add_all apply_patch ensure_if send_all
    remember reconcile_devlocal removed_entries updated_entries added_entries compute_patch
    with_containers fingerprint_state write_page publish settle_reload finish_reload reload_with
    reload_caddy_config fetch_running_config write_index_artifacts reload_state state_page
    state_fingerprint
app_reloads = refl

reload_applies : (reload_state env cfg weather app.containers app.status app.api).0 ≢ failed
reload_applies h = cc (h, app_reloads)

apply_devlocal_twice_example :
    apply_devlocal env cfg weather true (apply_devlocal env cfg weather true app)
    ≡ apply_devlocal env cfg weather true app
apply_devlocal_twice_example =
    apply_devlocal_twice env cfg weather weather true app app-IsNamed hosts_faults-Works
      hosts_faults-Works (inl app-NoMarker) reload_applies
