-- ===== src/Cmd/Start/Tests.antt =====
-- The start of the command without a user configuration.
use caddy_dev_local.Admin.{
  prepend_tls_policy, merge_policy, decoded_policies, write_policies, settle_policies, put_resource,
  without_policy, and_then, only_if, is_success, tries, do_request, request, get_config, do_post,
  post_route, get_status, ensure_resource, ensure_server,
}
use caddy_dev_local.Admin.Patch.{removed_entries, updated_entries, added_entries, compute_patch}
use caddy_dev_local.Admin.Reconcile.{
  is_empty, delete_all, update_all, add_all, apply_patch, ensure_if, send_all, remember,
  reconcile_devlocal,
}
use caddy_dev_local.Base.Dict.{keep_if}
use caddy_dev_local.Base.Sort.{sort}
use caddy_dev_local.Caddy.{write_page, publish}
use caddy_dev_local.Caddy.Files.{fetch_running_config, write_index_artifacts}
use caddy_dev_local.Caddy.UserConfig.{inject_listen_ports}
use caddy_dev_local.Cmd.Adapter.{config_path}
use caddy_dev_local.Generator.Build.{
  should_skip, matches_hostname, is_self_container, discover_self, build_container_info, built,
  find_self, self_info, on_shared_network, reachability, first_network_ip, ip_for, distinct_ports,
  extract_ports, published, network_names,
}
use caddy_dev_local.Generator.Domains.{
  add_container, add_by_custom, add_selected, add_target, merge_targets, sort_targets,
  domain_targets,
}
use caddy_dev_local.Generator.Refresh.{
  passed_over, refresh_one, with_state, absorb, survives, refresh_loop, refresh_from,
  refresh_locked, refreshed_or_panicked,
}
use caddy_dev_local.Generator.Select.{
  probe_target, set_selected, select_one, select_ports_locked, select_after, refresh_and_select,
}
use caddy_dev_local.Base.{
  ◌≡◌, refl, Bool, true, false, none, some, [], ◌∷◌, nat_dec, list_dec, arith,
}
use caddy_dev_local.Str.{codes, has_prefix, str_le}
use caddy_dev_local.Docker.{container_name}
use caddy_dev_local.Generator.Custom.{parse_label}
use caddy_dev_local.Generator.{
  has_reachable_port, domain_for_container, domain_for_container_localhost,
}
use caddy_dev_local.Config.{Config, missing, detect_standalone, apply_flags, default_config}
use caddy_dev_local.Config.Flags.{resolve_standalone, shared_overrides, if_changed}
use caddy_dev_local.Builder.{
  route_id, replace_dot, reverse_proxy_route, no_fields, add_routes, build_policies,
  with_index_route, build_devlocal_config,
}
use caddy_dev_local.Caddy.Startup.{
  Tools, user_config, reconcile_after, post_devlocal_via_api, settle_init, finish_init,
  load_and_post, init_with, init_from, init_caddy_config,
}
use caddy_dev_local.Cmd.{App, apply_command_flags, command_overrides, state_page}
use caddy_dev_local.Cmd.Launch.{InStep, AreSent, cmd_func-InStep}
use caddy_dev_local.Cmd.Samples.{env, weather, api, flags, zero_only}
use caddy_dev_local.Cmd.Start.{
  Around, command_config, Launched, exited, crashed, runs, no_status, cmd_func, after_init,
  init_state, after_refresh, launch,
}
use caddy_dev_local.Generator.Samples.{cfg, web}
use caddy_dev_local.Hosts.{Disk}

abbrev tools : Tools
tools = record {
  read_file = λ path. none;
  parse = λ s. none;
  adapters = λ name. none;
  decode = λ s. some (some no_fields);
  encode = λ m. some (codes "{}");
  load = λ json. true;
}

abbrev around : Around
around = record {
  env = λ name. [];
  parse_duration = zero_only;
  dockerenv = missing;
  is_file = λ name. false;
  can_write = true;
  docker_ok = true;
  cache_dir_ok = true;
  mkdir_ok = true;
  hostname = codes "h";
  answer = some (web ∷ []);
  probe = λ host ports. some 80;
  tools = tools;
  weather = weather;
}

abbrev disk : Disk
disk = record { hosts = some []; tmp = none }

abbrev launched : Launched
launched = cmd_func env around flags (λ fs name. false) [] api disk

abbrev config_of : Launched → Config
config_of exited = cfg
config_of crashed = cfg
config_of (runs c _ _) = c

abbrev hosts_ok_of : Launched → Bool
hosts_ok_of exited = false
hosts_ok_of crashed = false
hosts_ok_of (runs _ ok _) = ok

abbrev app_of : Launched → App
app_of exited = record { containers = []; status = no_status; api = api; busy = false; disk = disk }
app_of crashed = record {
  containers = [];
  status = no_status;
  api = api;
  busy = false;
  disk = disk;
}
app_of (runs _ _ app) = app

abbrev is_running : Launched → Bool
is_running exited = false
is_running crashed = false
is_running (runs _ _ _) = true

running : (l : Launched) → is_running l ≡ true → l ≡ runs (config_of l) (hosts_ok_of l) (app_of l)
running exited h = absurd (ground (arith, h))
running crashed h = absurd (ground (arith, h))
running (runs c ok app) h = refl

launched-IsRunning : is_running launched ≡ true
unfolding command_config resolve_standalone detect_standalone add_container add_by_custom
    add_selected add_target apply_command_flags apply_flags command_overrides shared_overrides
    if_changed default_config prepend_tls_policy merge_policy decoded_policies write_policies
    settle_policies put_resource without_policy and_then only_if is_success tries do_request request
    get_config do_post post_route get_status ensure_resource ensure_server removed_entries
    updated_entries added_entries compute_patch is_empty delete_all update_all add_all apply_patch
    ensure_if send_all remember reconcile_devlocal keep_if sort add_routes build_policies
    with_index_route build_devlocal_config write_page publish fetch_running_config
    write_index_artifacts user_config reconcile_after post_devlocal_via_api settle_init finish_init
    load_and_post init_with init_from init_caddy_config inject_listen_ports state_page config_path
    after_init init_state after_refresh launch cmd_func discover_self merge_targets sort_targets
    domain_targets refresh_loop refresh_from refresh_locked refreshed_or_panicked
    select_ports_locked select_after refresh_and_select should_skip matches_hostname
    is_self_container build_container_info built find_self self_info on_shared_network reachability
    first_network_ip ip_for distinct_ports extract_ports published network_names passed_over
    refresh_one with_state absorb survives probe_target set_selected select_one route_id replace_dot
    reverse_proxy_route has_prefix str_le container_name parse_label has_reachable_port
    domain_for_container domain_for_container_localhost nat_dec list_dec
launched-IsRunning = refl

cmd_func-InStep_example :
    InStep env (config_of launched) (app_of launched)
    × AreSent env (config_of launched) (app_of launched)
cmd_func-InStep_example =
    cmd_func-InStep env around flags (λ fs name. false) [] api disk (config_of launched)
      (hosts_ok_of launched) (app_of launched) refl (running launched launched-IsRunning)
