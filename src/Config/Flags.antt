-- ===== src/Config/Flags.antt =====
-- config/flags.go: the flags that the commands share.
-- A flag set of `pflag` or `flag` is the argument `FlagSet`: what is registered, and what is asked of
-- it after the arguments are parsed. Registering panics, `none`, as the packages have it.
pub mod Laws
mod Tests
use caddy_dev_local.Base.{
  ℕ, Bool, true, false, Option, none, some, List, [], ◌∷◌, ◌==◌, nat_eq, list_eq, nat_dec, list_dec,
  ◌||◌, if◌then◌else◌,
}
use caddy_dev_local.Base.Int.{ℤ}
use caddy_dev_local.Str.{Str, codes}
use caddy_dev_local.Config.{
  Config, FlagOverrides, Stat, detect_standalone, apply_flags, default_config,
}

pub record FlagSpec : Type 0 where
  pub name : Str
  pub default : Str
  pub usage : Str

abbrev pub flag_tld : Str
flag_tld = codes "tld"

abbrev pub flag_stale_ttl : Str
flag_stale_ttl = codes "stale-ttl"

abbrev pub flag_probe_timeout : Str
flag_probe_timeout = codes "probe-timeout"

abbrev pub flag_poll_interval : Str
flag_poll_interval = codes "poll-interval"

abbrev pub shared_flag_specs : List FlagSpec
shared_flag_specs =
    record { name = flag_tld; default = []; usage = codes "Top-level domain (env: DEVLOCAL_TLD)" }
    ∷ record {
      name = flag_stale_ttl;
      default = codes "0";
      usage = codes "Keep config for stopped containers (env: DEVLOCAL_STALE_TTL)";
    }
    ∷ record {
      name = flag_probe_timeout;
      default = codes "0";
      usage = codes "HTTP probe timeout (env: DEVLOCAL_PROBE_TIMEOUT)";
    }
    ∷ record {
      name = flag_poll_interval;
      default = codes "0";
      usage =
          codes
            "Periodic full refresh as a safety net for missed events (env: DEVLOCAL_POLL_INTERVAL, default 30s, 0 disables)";
    }
    ∷ []

unfoldable pub is_shared_duration_flag : Str → Bool
unfolding nat_dec list_dec
is_shared_duration_flag name =
    name == flag_stale_ttl || name == flag_probe_timeout || name == flag_poll_interval

-- What the functions use of a flag set.
pub record FlagSet (FS : Type 0) : Type 0 where
  pub add_string : Str → Str → Str → FS → Option FS
  pub add_duration : Str → ℤ → Str → FS → Option FS
  pub changed : FS → Str → Bool
  pub get_string : FS → Str → Str
  pub get_duration : FS → Str → ℤ

module _ {FS : Type 0} (flags : FlagSet FS) where
  module _ (parse_duration : Str → Option ℤ) where
    -- `mustParseDuration` is `parse_duration`, with a panic for an error.
    unfoldable pub must_parse_duration : Str → Option ℤ
    must_parse_duration default = parse_duration default

    unfoldable pub add_parsed : FlagSpec → Option ℤ → FS → Option FS
    add_parsed s none fs = none
    add_parsed s (some d) fs = flags.add_duration s.name d s.usage fs

    unfoldable pub register_flag : FlagSpec → FS → Option FS
    register_flag s fs =
        if is_shared_duration_flag s.name
        then add_parsed s (must_parse_duration s.default) fs
        else flags.add_string s.name s.default s.usage fs

    unfoldable pub register_flags : List FlagSpec → FS → Option FS
    register_flags [] fs = some fs
    register_flags (s ∷ specs) fs = elim (register_flag s fs) [
      | none ↦ none
      | some fs' ↦ register_flags specs fs'
    ]

    -- `RegisterSharedFlags` and `RegisterSharedGoFlags`, which differ in the type of the flag set.
    unfoldable pub register_shared_flags : FS → Option FS
    register_shared_flags fs = register_flags shared_flag_specs fs

  -- `if fs.Changed(name) { v, _ := …; o.F = &v }`
  unfoldable pub if_changed : {A : Type 0} → FS → Str → A → Option A
  if_changed fs name v = if flags.changed fs name then some v else none

  unfoldable pub shared_overrides : FS → FlagOverrides
  shared_overrides fs = record {
    tld = if_changed fs flag_tld (flags.get_string fs flag_tld);
    stale_ttl = if_changed fs flag_stale_ttl (flags.get_duration fs flag_stale_ttl);
    probe_timeout = if_changed fs flag_probe_timeout (flags.get_duration fs flag_probe_timeout);
    hosts_file = none;
    tracing = none;
    poll_interval = if_changed fs flag_poll_interval (flags.get_duration fs flag_poll_interval);
  }

  unfoldable pub apply_shared_flags : FS → Config → Config
  apply_shared_flags fs cfg = apply_flags (shared_overrides fs) cfg

-- `ResolveStandalone`, from what `os.Stat("/.dockerenv")` returns
unfoldable pub resolve_standalone : Stat → Config → Config
resolve_standalone dockerenv cfg = record cfg { standalone = detect_standalone dockerenv }

unfoldable pub resolve :
    {FS : Type 0} → FlagSet FS → (Str → Str) → (Str → Option ℤ) → Stat → FS → Config
resolve flags env parse_duration dockerenv fs =
    resolve_standalone dockerenv (apply_shared_flags flags fs (default_config env parse_duration))
