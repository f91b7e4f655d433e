-- ===== src/Config/Flags/Tests.antt =====
-- The theorems on the shared flags at a small flag set.
use caddy_dev_local.Base.{
  ◌↔◌, not, ◌≡◌, refl, true, Option, none, some, List, [], ◌∷◌, ◌==◌, nat_eq, list_eq, contains,
  nat_dec, list_dec, if◌then◌else◌,
}
use caddy_dev_local.Base.Int.{ℤ, pos}
use caddy_dev_local.Str.{Str, codes}
use caddy_dev_local.Config.{missing, apply_flags}
use caddy_dev_local.Config.Flags.{
  FlagSet, flag_tld, flag_stale_ttl, flag_probe_timeout, flag_poll_interval, if_changed,
  shared_overrides, apply_shared_flags, resolve_standalone, resolve,
}
use caddy_dev_local.Config.Flags.Laws.{
  text_set, duration_set, is_no, seconds, resolved, resolve-IsLayered, Registers,
}

-- The names that are registered; `--tld t` was given.
abbrev flags : FlagSet (List Str)
flags = record {
  add_string = λ name v usage fs. some (name ∷ fs);
  add_duration = λ name d usage fs. some (name ∷ fs);
  changed = λ fs name. name == flag_tld;
  get_string = λ fs name. codes "t";
  get_duration = λ fs name. pos 0;
}

abbrev env : Str → Str
env name = if name == codes "DEVLOCAL_TLD" then codes "x" else []

abbrev zero_only : Str → Option ℤ
zero_only s = if s == codes "0" then some (pos 0) else none

flags-Registers : Registers flags contains
flags-Registers = record {
  string = λ name v usage fs h. (name ∷ fs, refl, λ n. refl);
  duration = λ name d usage fs h. (name ∷ fs, refl, λ n. refl);
}

tld_of_flag : (resolve flags env zero_only missing []).tld ≡ codes "t"
unfolding resolve resolve_standalone apply_shared_flags apply_flags shared_overrides if_changed
    nat_dec list_dec
tld_of_flag = refl

resolve-IsLayered_example :
    ((resolved flags env zero_only missing []).tld ≡ (
      if flags.changed [] flag_tld
      then flags.get_string [] flag_tld
      else text_set (env (codes "DEVLOCAL_TLD")) (codes "dev.local")))
    × ((resolved flags env zero_only missing []).stale_ttl ≡ (
        if flags.changed [] flag_stale_ttl
        then flags.get_duration [] flag_stale_ttl
        else duration_set zero_only (env (codes "DEVLOCAL_STALE_TTL")) (seconds 3600)))
    × ((resolved flags env zero_only missing []).probe_timeout ≡ (
        if flags.changed [] flag_probe_timeout
        then flags.get_duration [] flag_probe_timeout
        else duration_set zero_only (env (codes "DEVLOCAL_PROBE_TIMEOUT")) (seconds 2)))
    × ((resolved flags env zero_only missing []).poll_interval ≡ (
        if flags.changed [] flag_poll_interval
        then flags.get_duration [] flag_poll_interval
        else duration_set zero_only (env (codes "DEVLOCAL_POLL_INTERVAL")) (seconds 30)))
    × (((resolved flags env zero_only missing []).standalone ≡ true) ↔ (missing ≡ missing))
    × ((resolved flags env zero_only missing []).hosts_file
        ≡ not (is_no (env (codes "DEVLOCAL_HOSTS_FILE"))))
    × ((resolved flags env zero_only missing []).tracing
        ≡ not (is_no (env (codes "DEVLOCAL_TRACING"))))
resolve-IsLayered_example = resolve-IsLayered flags env zero_only missing []
