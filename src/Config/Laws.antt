-- ===== src/Config/Laws.antt =====
-- Which source a setting is taken from.
use caddy_dev_local.Base.{◌≡◌, refl, Option, none, some}
use caddy_dev_local.Config.{Config, FlagOverrides, override, apply_flags}

-- The overrides of two sets of flags, where the second set is applied later.
abbrev pub later {ℓ} : {A : Type ℓ} → Option A → Option A → Option A
later first none = first
later first (some new) = some new

abbrev pub combine : FlagOverrides → FlagOverrides → FlagOverrides
combine o p = record {
  tld = later o.tld p.tld;
  stale_ttl = later o.stale_ttl p.stale_ttl;
  probe_timeout = later o.probe_timeout p.probe_timeout;
  hosts_file = later o.hosts_file p.hosts_file;
  tracing = later o.tracing p.tracing;
  poll_interval = later o.poll_interval p.poll_interval;
}

override-later {ℓ} :
    {A : Type ℓ} (o p : Option A) (a : A) → override p (override o a) ≡ override (later o p) a
unfolding override
override-later o none a = refl
override-later o (some new) a = refl

-- Applying two sets of overrides one after the other applies, setting by setting, the later one
-- that is given, and never touches `standalone`.
pub apply_flags-combine :
    (o p : FlagOverrides) (c : Config)
    → apply_flags p (apply_flags o c) ≡ apply_flags (combine o p) c
unfolding apply_flags
apply_flags-combine o p c = λ i. record {
  tld = override-later o.tld p.tld c.tld i;
  stale_ttl = override-later o.stale_ttl p.stale_ttl c.stale_ttl i;
  probe_timeout = override-later o.probe_timeout p.probe_timeout c.probe_timeout i;
  standalone = c.standalone;
  hosts_file = override-later o.hosts_file p.hosts_file c.hosts_file i;
  tracing = override-later o.tracing p.tracing c.tracing i;
  poll_interval = override-later o.poll_interval p.poll_interval c.poll_interval i;
}
