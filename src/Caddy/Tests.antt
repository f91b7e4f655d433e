-- ===== src/Caddy/Tests.antt =====
-- The theorems on the reload and the fingerprint at small inputs.
use caddy_dev_local.Admin.Patch.{removed_entries, updated_entries, added_entries, compute_patch}
use caddy_dev_local.Admin.Reconcile.{
  is_empty, delete_all, update_all, add_all, apply_patch, ensure_if, send_all, remember,
  reconcile_devlocal,
}
use caddy_dev_local.Base.{
  ℕ, ◌≡◌, refl, true, false, nat_eq, list_eq, Option, none, some, List, [], ◌∷◌, All, arith,
  nat_dec, list_dec,
}
use caddy_dev_local.Base.Dict.{Dict, lookup, insert}
use caddy_dev_local.Base.Sort.{sort, insert_sorted}
use caddy_dev_local.Str.{Str, codes, str_le}
use caddy_dev_local.Builder.{
  Json, or_nil, add_routes, build_policies, with_index_route, build_devlocal_config,
}
use caddy_dev_local.Generator.Index.Rows.{unix}
use caddy_dev_local.Admin.{
  Server, Codec, permanent, response, and_then, only_if, is_success, decoded_policies, tries,
  do_request, request, get_config, do_post, post_route, get_status, ensure_resource, ensure_server,
  settle_policies, write_policies, merge_policy, prepend_tls_policy,
}
use caddy_dev_local.Caddy.{
  Api, Page, unchanged, failed, ended_by_zero, domains_text, fingerprint_domains,
  reload_caddy_config, write_page, publish, settle_reload, finish_reload, reload_with,
}
use caddy_dev_local.Caddy.Reload.{RunsAgain, reload-RunsAgain, reload_back}
use caddy_dev_local.Caddy.Files.{IndexDir, Faults, write_index_artifacts, fetch_running_config}
use caddy_dev_local.Caddy.Files.Laws.{Holds, write_index_artifacts-Holds}
use caddy_dev_local.Caddy.Fingerprint.{IsClean, table, fingerprint_domains-injective}

-- A server that is down.
abbrev server : Server
server log req = permanent

abbrev codec : Codec
codec = record {
  decode_ports = λ s. none;
  encode_server = λ http https. some (codes "{}");
  decode_policies = λ s. some [];
  policy_id = λ s. s;
  encode_policies = λ ps. some (codes "[]");
}

abbrev marshal : Json → Option Str
marshal j = some (codes "json")

abbrev targets : Dict Str (List Str)
targets = (codes "a.x", codes "h:1" ∷ []) ∷ []

abbrev no_files : IndexDir
no_files = record { html = none; css = none; version = none; autosave = none }

abbrev no_faults : Faults
no_faults = record {
  read_html = false;
  read_css = false;
  write_html = none;
  write_css = none;
  write_version = none;
  write_autosave = none;
}

abbrev encode_version : Str → ℕ → Option Str
encode_version fp now = some fp

abbrev page : Page
page = record {
  render = λ config. config;
  indent = λ s. some s;
  css = codes "css";
  encode_version = encode_version;
  encode_autosave = λ devlocal. none;
  now = 0;
  faults = no_faults;
}

abbrev api : Api
api = record {
  fingerprint = [];
  known = record { routes = []; policies = [] };
  log = [];
  store = record { last_config = none; dir = no_files };
}

reload-RunsAgain_example :
    RunsAgain server codec marshal (codes "t") (codes "/d") targets true page (codes "f") (
      reload_caddy_config server codec marshal page
        (codes "f")
        (codes "t")
        (codes "/d")
        targets
        true
        api)
reload-RunsAgain_example =
    reload-RunsAgain server codec marshal (codes "t") (codes "/d") targets true page page
      (codes "f") api

-- A page whose HTML file cannot be written.
abbrev unwritten : Page
unwritten = record page { faults = record no_faults { write_html = some none } }

-- A server that accepts every request.
abbrev accepting : Server
accepting log req = response 200 (codes "{}")

reload_fails :
    (reload_caddy_config accepting codec marshal unwritten
      (codes "f")
      (codes "t")
      (codes "/d")
      targets
      true
      api).0
    ≡ failed
unfolding and_then only_if is_success decoded_policies tries do_request request get_config do_post
    post_route get_status ensure_resource ensure_server settle_policies write_policies merge_policy
    prepend_tls_policy removed_entries updated_entries added_entries compute_patch is_empty
    delete_all update_all add_all apply_patch ensure_if send_all remember reconcile_devlocal
    add_routes build_policies with_index_route build_devlocal_config write_page publish
    settle_reload finish_reload reload_with reload_caddy_config fetch_running_config
    write_index_artifacts sort insert lookup
reload_fails = refl

reload_back_example :
    reload_caddy_config accepting codec marshal page []
      (codes "t")
      (codes "/d")
      []
      true
      (reload_caddy_config accepting codec marshal unwritten
        (codes "f")
        (codes "t")
        (codes "/d")
        targets
        true
        api).1
    ≡ (
      unchanged,
      (reload_caddy_config accepting codec marshal unwritten
          (codes "f")
          (codes "t")
          (codes "/d")
          targets
          true
          api).1,
    )
reload_back_example =
    reload_back accepting codec marshal unwritten page (codes "f") (codes "t") (codes "/d") targets
      [] true api (λ e. cc e) reload_fails

written :
    (write_index_artifacts
      (codes "css")
      encode_version
      no_faults
      (codes "p")
      (codes "f")
      0
      no_files).0
    ≡ true
unfolding write_index_artifacts
written = refl

write_index_artifacts-Holds_example :
    Holds
      (codes "p")
      (codes "css")
      (encode_version (codes "f") (unix 0))
      none
      (write_index_artifacts
        (codes "css")
        encode_version
        no_faults
        (codes "p")
        (codes "f")
        0
        no_files).1
write_index_artifacts-Holds_example =
    write_index_artifacts-Holds (codes "css") encode_version no_faults (codes "p") (codes "f") 0
      no_files written

-- A stand-in for the hash.
abbrev hash : Str → Str
hash s = s

abbrev two : Dict Str (List Str)
two = (codes "a.x", codes "h:1" ∷ []) ∷ (codes "b.x", codes "i:2" ∷ codes "h:1" ∷ []) ∷ []

-- The same map, visited in another order.
abbrev other_order : Dict Str (List Str)
other_order = (codes "b.x", codes "h:1" ∷ codes "i:2" ∷ []) ∷ (codes "a.x", codes "h:1" ∷ []) ∷ []

two-IsClean : All (All IsClean) (table two)
unfolding sort or_nil lookup str_le list_dec nat_dec insert_sorted
two-IsClean = omega arith

other_order-IsClean : All (All IsClean) (table other_order)
unfolding sort or_nil lookup str_le list_dec nat_dec insert_sorted
other_order-IsClean = omega arith

same_fingerprint : fingerprint_domains hash two ≡ fingerprint_domains hash other_order
unfolding fingerprint_domains domains_text ended_by_zero sort or_nil lookup str_le list_dec nat_dec
    insert_sorted
same_fingerprint = refl

fingerprint_domains-injective_example : table two ≡ table other_order
fingerprint_domains-injective_example =
    fingerprint_domains-injective hash two other_order two-IsClean other_order-IsClean (λ e. e)
      same_fingerprint
