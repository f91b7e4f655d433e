-- ===== src/Cmd/Samples.antt =====
-- What the commands meet, for the tests: a server that accepts every request, and calls on files that
-- do not fail.
use caddy_dev_local.Base.Sort.{sort}
use caddy_dev_local.Generator.Samples.{cfg, with_port_selected}
use caddy_dev_local.Generator.{
  has_reachable_port, domain_for_container, domain_for_container_localhost,
}
use caddy_dev_local.Generator.Domains.{domains, add_names, add_domain, collect_names, add_names_by}
use caddy_dev_local.Cmd.Laws.{IsNamed}
use caddy_dev_local.Cmd.Start.{no_status}
use caddy_dev_local.Hosts.{build_block, block_of, mark}
use caddy_dev_local.Hosts.Calls.{stored, Works}
use caddy_dev_local.Hosts.Block.{NoMarker}
use caddy_dev_local.Base.{
  false, Option, none, some, List, [], ◌∷◌, ◌==◌, nat_eq, list_eq, inr, if◌then◌else◌, refl,
  nat_dec, list_dec, arith,
}
use caddy_dev_local.Base.Int.{ℤ, pos}
use caddy_dev_local.Str.{Str, codes, split, str_le}
use caddy_dev_local.Config.Flags.{FlagSet}
use caddy_dev_local.Admin.{Server, Codec, response}
use caddy_dev_local.Caddy.{Api}
use caddy_dev_local.Caddy.Files.{IndexDir, Faults}
use caddy_dev_local.Cmd.{Env, Weather, App}
use caddy_dev_local.Hosts

abbrev pub server : Server
server log req = response 200 (codes "{}")

abbrev pub codec : Codec
codec = record {
  decode_ports = λ s. none;
  encode_server = λ http https. some (codes "{}");
  decode_policies = λ s. some [];
  policy_id = λ s. s;
  encode_policies = λ ps. some (codes "[]");
}

abbrev pub env : Env
env = record {
  server = server;
  codec = codec;
  marshal = λ j. some (codes "json");
  hash = λ s. codes "f";
  encode_containers = λ infos. some [];
  format_time = λ t. [];
  marshal_labels = λ labels. none;
  recode = λ s. none;
  execute = λ d. inr (codes "page");
  indent = λ s. some s;
  css = codes "css";
  encode_version = λ fp now. some fp;
  encode_autosave = λ devlocal. none;
  index_dir = codes "/d";
}

abbrev pub page_faults : Faults
page_faults = record {
  read_html = false;
  read_css = false;
  write_html = none;
  write_css = none;
  write_version = none;
  write_autosave = none;
}

abbrev pub hosts_faults : Hosts.Faults
hosts_faults = record {
  windows = false;
  first_read = false;
  second_read = false;
  write = false;
  rename = false;
  remove_tmp = false;
  left = none;
}

abbrev pub weather : Weather
weather = record { now = 0; page_faults = page_faults; hosts_faults = hosts_faults }

abbrev pub no_files : IndexDir
no_files = record { html = none; css = none; version = none; autosave = none }

abbrev pub api : Api
api = record {
  fingerprint = [];
  known = record { routes = []; policies = [] };
  log = [];
  store = record { last_config = none; dir = no_files };
}

-- The names that are registered.
abbrev pub flags : FlagSet (List Str)
flags = record {
  add_string = λ name v usage fs. some (name ∷ fs);
  add_duration = λ name d usage fs. some (name ∷ fs);
  changed = λ fs name. false;
  get_string = λ fs name. [];
  get_duration = λ fs name. pos 0;
}

abbrev pub zero_only : Str → Option ℤ
zero_only s = if s == codes "0" then some (pos 0) else none

abbrev pub app : App
app = record {
  containers = (codes "w1", with_port_selected) ∷ [];
  status = no_status;
  api = api;
  busy = false;
  disk = record { hosts = some (codes "127.0.0.1 x"); tmp = none };
}

pub app-IsNamed : IsNamed env cfg app.containers
unfolding add_domain add_names_by add_names collect_names domains sort nat_dec list_dec str_le
    domain_for_container_localhost domain_for_container has_reachable_port
app-IsNamed = omega arith

pub hosts_faults-Works : Works hosts_faults
hosts_faults-Works = record { reads = refl; reads_again = refl; writes = refl; renames = refl }

pub app-NoMarker : NoMarker (stored app.disk)
unfolding mark split
app-NoMarker = (refl, tt)
