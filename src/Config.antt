-- ===== src/Config.antt =====
-- config/config.go: the settings and where they come from.
-- The environment is a function from names to values, where an unset variable is the empty text, as
-- `os.Getenv` has it; `time.ParseDuration` is an argument.
pub mod Laws
pub mod Flags
use caddy_dev_local.Base.{
  ℕ, ◌*◌, Bool, true, false, Option, none, some, List, [], ◌∷◌, ◌==◌, list_eq, nat_eq, list_dec,
  nat_dec, ◌||◌, if◌then◌else◌,
}
use caddy_dev_local.Base.Int.{ℤ, pos}
use caddy_dev_local.Str.{Str, codes}

-- Durations are counted in nanoseconds.
pub record Config : Type 0 where
  pub tld : Str
  pub stale_ttl : ℤ
  pub probe_timeout : ℤ
  pub standalone : Bool
  pub hosts_file : Bool
  pub tracing : Bool
  pub poll_interval : ℤ

pub record FlagOverrides : Type 0 where
  pub tld : Option Str
  pub stale_ttl : Option ℤ
  pub probe_timeout : Option ℤ
  pub hosts_file : Option Bool
  pub tracing : Option Bool
  pub poll_interval : Option ℤ

-- What `os.Stat` returns: a file, an error for a missing file, or another error.
pub data Stat : Type 0 where
  exists missing refused : Stat

-- `DetectStandalone`, from what `os.Stat("/.dockerenv")` returns
unfoldable pub detect_standalone : Stat → Bool
detect_standalone exists = false
detect_standalone missing = true
detect_standalone refused = false

-- `if o.F != nil { c.F = *o.F }`
unfoldable pub override {ℓ} : {A : Type ℓ} → Option A → A → A
override none old = old
override (some new) old = new

unfoldable pub apply_flags : FlagOverrides → Config → Config
unfolding override
apply_flags o c = record {
  tld = override o.tld c.tld;
  stale_ttl = override o.stale_ttl c.stale_ttl;
  probe_timeout = override o.probe_timeout c.probe_timeout;
  standalone = c.standalone;
  hosts_file = override o.hosts_file c.hosts_file;
  tracing = override o.tracing c.tracing;
  poll_interval = override o.poll_interval c.poll_interval;
}

unfoldable pub or_default : Str → Str → Str
or_default [] default = default
or_default (c ∷ v) default = c ∷ v

abbrev second : ℕ
second = 1_000_000_000

module _ (env : Str → Str) (parse_duration : Str → Option ℤ) where
  unfoldable pub get_env_or_default : Str → Str → Str
  unfolding or_default
  get_env_or_default key default = or_default (env key) default

  unfoldable pub get_bool_or_default : Str → Bool → Bool
  get_bool_or_default key default =
      let v = env key in
      if v == codes "true" || v == codes "1" || v == codes "yes"
      then true
      else if v == codes "false" || v == codes "0" || v == codes "no"
      then false
      else default

  unfoldable pub duration_or : Str → ℤ → ℤ
  unfolding override
  duration_or [] default = default
  duration_or (c ∷ v) default = override (parse_duration (c ∷ v)) default

  unfoldable pub get_duration_or_default : Str → ℤ → ℤ
  unfolding duration_or
  get_duration_or_default key default = duration_or (env key) default

  unfoldable pub default_config : Config
  unfolding get_env_or_default get_bool_or_default get_duration_or_default
  default_config = record {
    tld = get_env_or_default (codes "DEVLOCAL_TLD") (codes "dev.local");
    stale_ttl = get_duration_or_default (codes "DEVLOCAL_STALE_TTL") (pos (3600 * second));
    probe_timeout = get_duration_or_default (codes "DEVLOCAL_PROBE_TIMEOUT") (pos (2 * second));
    standalone = false;
    hosts_file = get_bool_or_default (codes "DEVLOCAL_HOSTS_FILE") true;
    tracing = get_bool_or_default (codes "DEVLOCAL_TRACING") true;
    poll_interval = get_duration_or_default (codes "DEVLOCAL_POLL_INTERVAL") (pos (30 * second));
  }
