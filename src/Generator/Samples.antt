-- ===== src/Generator/Samples.antt =====
-- A configuration, a listed container and a stopped one, for the tests.
use caddy_dev_local.Base.{true, false, none, some, [], ◌∷◌}
use caddy_dev_local.Base.Int.{pos}
use caddy_dev_local.Str.{codes}
use caddy_dev_local.Config.{Config}
use caddy_dev_local.Docker.{Summary}
use caddy_dev_local.Generator.{ContainerInfo, Containers, TargetKind}

abbrev pub cfg : Config
cfg = record {
  tld = codes "t";
  stale_ttl = pos 10;
  probe_timeout = pos 1;
  standalone = true;
  hosts_file = true;
  tracing = false;
  poll_interval = pos 5;
}

abbrev pub web : Summary
web = record {
  id = codes "w1";
  names = codes "/web" ∷ [];
  image = codes "i";
  labels = none;
  ports = record { private_port = 80; public_port = 8080 } ∷ [];
  state = codes "running";
  created = 1;
  health = none;
  networks = none;
}

abbrev pub old : ContainerInfo
old = record {
  container_id = codes "o1";
  container_name = codes "old";
  image = codes "i";
  project = [];
  service = [];
  ip_address = [];
  ports = 81 ∷ [];
  published_ports = [];
  selected_port = 0;
  target_kind = TargetKind.gateway;
  gateway_host = codes "g";
  is_compose = false;
  is_running = false;
  last_stopped = some 95;
  created = 1;
  labels = none;
  custom_domains = [];
  health = [];
  networks = [];
}

abbrev pub known : Containers
known = (codes "o1", old) ∷ []

-- The entry for the listed container.
abbrev pub served : ContainerInfo
served = record {
  container_id = codes "w1";
  container_name = codes "web";
  image = codes "i";
  project = [];
  service = [];
  ip_address = [];
  ports = 80 ∷ [];
  published_ports = (80, 8080) ∷ [];
  selected_port = 0;
  target_kind = TargetKind.gateway;
  gateway_host = codes "host.docker.internal";
  is_compose = false;
  is_running = true;
  last_stopped = none;
  created = 1_000_000_000;
  labels = none;
  custom_domains = [];
  health = [];
  networks = [];
}

abbrev pub with_port_selected : ContainerInfo
with_port_selected = record served { selected_port = 8080 }
