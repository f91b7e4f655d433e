-- ===== src/Config/Flags/Laws.antt =====
-- config/flags.go: where a setting comes from, and that registering the flags succeeds.
use mathlib.Core.Path.{subst}
use caddy_dev_local.Base.{
  ℕ, ◌≡◌, refl, sym, ◌↔◌, ap, ◌∙◌, Bool, true, false, Option, none, some, not, ==_iff, List, [],
  ◌∷◌, ◌==◌, nat_eq, list_eq, nat_dec, list_dec, ◌||◌, if◌then◌else◌, contains, arith, map, ◌*◌,
  All, ◌⊎◌, inl, inr, Bool-cases,
}
use caddy_dev_local.Base.Distinct.{Nodup}
use caddy_dev_local.Base.Int.{ℤ, pos}
use caddy_dev_local.Str.{Str, codes}
use caddy_dev_local.Config.{
  Config, Stat, exists, missing, refused, detect_standalone, or_default, duration_or, override,
  apply_flags, default_config, get_env_or_default, get_bool_or_default, get_duration_or_default,
}
use caddy_dev_local.Config.Flags.{
  FlagSet, FlagSpec, flag_tld, flag_stale_ttl, flag_probe_timeout, flag_poll_interval,
  shared_flag_specs, is_shared_duration_flag, register_flag, register_flags, register_shared_flags,
  add_parsed, must_parse_duration, if_changed, shared_overrides, apply_shared_flags,
  resolve_standalone, resolve,
}

abbrev pub seconds : ℕ → ℤ
seconds n = pos (n * 1_000_000_000)

-- What a variable with this value sets: the value itself, or a duration. An unset variable and a value
-- that is not understood leave the default.
abbrev pub text_set : Str → Str → Str
text_set v default = if v == [] then default else v

abbrev pub duration_set : (Str → Option ℤ) → Str → ℤ → ℤ
duration_set parse_duration v default =
    if v == [] then default else elim (parse_duration v) [ none ↦ default | some d ↦ d ]

-- The values that switch off what is on by default.
abbrev pub is_no : Str → Bool
is_no v = contains (codes "false" ∷ codes "0" ∷ codes "no" ∷ []) v

pub or_default-text_set : (v default : Str) → or_default v default ≡ text_set v default
unfolding or_default list_dec
or_default-text_set [] default = refl
or_default-text_set (c ∷ v) default = refl

of_word : (v w : Str) → (v == w) ≡ true → is_no w ≡ false → is_no v ≡ false
of_word v w e h = subst (λ x. is_no x ≡ false) (sym ((==_iff v w).0 e)) h

-- No value says both.
yes-is_no :
    (v : Str) → (v == codes "true" || v == codes "1" || v == codes "yes") ≡ true → is_no v ≡ false
unfolding nat_dec list_dec
yes-is_no v h = elim (Bool-cases (v == codes "true")) [
  | inl e ↦ of_word v (codes "true") e refl
  | inr e ↦ elim (Bool-cases (v == codes "1")) [
    | inl k ↦ of_word v (codes "1") k refl
    | inr k ↦ of_word v (codes "yes") (ground (arith, h, e, k)) refl
  ]
]

override-elim :
    (o : Option ℤ) (default : ℤ) → override o default ≡ elim o [ none ↦ default | some d ↦ d ]
unfolding override
override-elim none default = refl
override-elim (some d) default = refl

module _ (env : Str → Str) (parse_duration : Str → Option ℤ) (key : Str) where
  get_env-text_set :
      (default : Str)
      → get_env_or_default env parse_duration key default ≡ text_set (env key) default
  unfolding get_env_or_default
  get_env-text_set default = or_default-text_set (env key) default

  duration_or-set :
      (v : Str) (default : ℤ)
      → duration_or env parse_duration v default ≡ duration_set parse_duration v default
  unfolding duration_or list_dec
  duration_or-set [] default = refl
  duration_or-set (c ∷ v) default = override-elim (parse_duration (c ∷ v)) default

  get_duration-set :
      (default : ℤ)
      → get_duration_or_default env parse_duration key default
        ≡ duration_set parse_duration (env key) default
  unfolding get_duration_or_default
  get_duration-set default = duration_or-set (env key) default

  -- A switch that is on by default is off just for the values that say no.
  get_bool-is_no : get_bool_or_default env parse_duration key true ≡ not (is_no (env key))
  unfolding get_bool_or_default
  get_bool-is_no = ground (arith, yes-is_no (env key))

else_eq {ℓ} :
    {A : Type ℓ} (b : Bool) (v : A) {x y : A} → x ≡ y → (if b then v else x) ≡ (if b then v else y)
else_eq b v e = ap (λ z. if b then v else z) e

standalone-missing : (st : Stat) → (detect_standalone st ≡ true) ↔ (st ≡ missing)
unfolding detect_standalone
standalone-missing exists = (λ h. absurd (cc h), λ h. absurd (cc h))
standalone-missing missing = (λ h. refl, λ h. refl)
standalone-missing refused = (λ h. absurd (cc h), λ h. absurd (cc h))

module _ {FS : Type 0} (flags : FlagSet FS) where
  override-if_changed :
      {A : Type 0} (fs : FS) (name : Str) (v old : A)
      → override (if_changed flags fs name v) old ≡ (if flags.changed fs name then v else old)
  unfolding override if_changed
  override-if_changed fs name v old = ground arith

  module _ (env : Str → Str) (parse_duration : Str → Option ℤ) (dockerenv : Stat) (fs : FS) where
    abbrev pub resolved : Config
    resolved = resolve flags env parse_duration dockerenv fs

    -- A setting comes from its flag where that was given. Else it is the value of its variable, where
    -- that is set and, for a duration, can be parsed. Else it is the default: `dev.local`, an hour, two
    -- seconds and half a minute. The hosts file and the tracing have no flag here and are on unless
    -- their variable is `false`, `0` or `no`. Whether the program runs outside a container is whether
    -- the file system says that `/.dockerenv` is missing.
    pub resolve-IsLayered :
        (resolved.tld ≡ (
          if flags.changed fs flag_tld
          then flags.get_string fs flag_tld
          else text_set (env (codes "DEVLOCAL_TLD")) (codes "dev.local")))
        × (resolved.stale_ttl ≡ (
            if flags.changed fs flag_stale_ttl
            then flags.get_duration fs flag_stale_ttl
            else duration_set parse_duration (env (codes "DEVLOCAL_STALE_TTL")) (seconds 3600)))
        × (resolved.probe_timeout ≡ (
            if flags.changed fs flag_probe_timeout
            then flags.get_duration fs flag_probe_timeout
            else duration_set parse_duration (env (codes "DEVLOCAL_PROBE_TIMEOUT")) (seconds 2)))
        × (resolved.poll_interval ≡ (
            if flags.changed fs flag_poll_interval
            then flags.get_duration fs flag_poll_interval
            else duration_set parse_duration (env (codes "DEVLOCAL_POLL_INTERVAL")) (seconds 30)))
        × ((resolved.standalone ≡ true) ↔ (dockerenv ≡ missing))
        × (resolved.hosts_file ≡ not (is_no (env (codes "DEVLOCAL_HOSTS_FILE"))))
        × (resolved.tracing ≡ not (is_no (env (codes "DEVLOCAL_TRACING"))))
    unfolding resolve resolve_standalone apply_shared_flags apply_flags shared_overrides
        default_config override
    resolve-IsLayered = (
      override-if_changed fs flag_tld _ _
          ∙ else_eq (flags.changed fs flag_tld) _
              (get_env-text_set env parse_duration (codes "DEVLOCAL_TLD") _),
      override-if_changed fs flag_stale_ttl _ _
          ∙ else_eq (flags.changed fs flag_stale_ttl) _
              (get_duration-set env parse_duration (codes "DEVLOCAL_STALE_TTL") _),
      override-if_changed fs flag_probe_timeout _ _
          ∙ else_eq (flags.changed fs flag_probe_timeout) _
              (get_duration-set env parse_duration (codes "DEVLOCAL_PROBE_TIMEOUT") _),
      override-if_changed fs flag_poll_interval _ _
          ∙ else_eq (flags.changed fs flag_poll_interval) _
              (get_duration-set env parse_duration (codes "DEVLOCAL_POLL_INTERVAL") _),
      standalone-missing dockerenv,
      get_bool-is_no env parse_duration (codes "DEVLOCAL_HOSTS_FILE"),
      get_bool-is_no env parse_duration (codes "DEVLOCAL_TRACING"),
    )

  -- What the packages promise: a name that is not registered yet can be registered, which registers
  -- that name and no other.
  pub record Registers (defined : FS → Str → Bool) : Type 0 where
    pub string :
        (name v usage : Str) (fs : FS)
        → defined fs name ≡ false
        → (fs' : FS) × (flags.add_string name v usage fs ≡ some fs')
          × ((n : Str) → defined fs' n ≡ (n == name || defined fs n))
    pub duration :
        (name : Str) (d : ℤ) (usage : Str) (fs : FS)
        → defined fs name ≡ false
        → (fs' : FS) × (flags.add_duration name d usage fs ≡ some fs')
          × ((n : Str) → defined fs' n ≡ (n == name || defined fs n))

  module _ (defined : FS → Str → Bool) (r : Registers defined)
      (parse_duration : Str → Option ℤ) where
    -- The default of a duration can be parsed.
    abbrev IsParsed : FlagSpec → Type 0
    IsParsed s =
        (is_shared_duration_flag s.name ≡ false) ⊎ ((d : ℤ) × (parse_duration s.default ≡ some d))

    abbrev Registered : List Str → FS → Option FS → Type 0
    Registered names fs o =
        (fs' : FS) × (o ≡ some fs')
        × ((n : Str) → defined fs' n ≡ (contains names n || defined fs n))

    register_flag-Registered :
        (s : FlagSpec) (fs : FS)
        → IsParsed s
        → defined fs s.name ≡ false
        → Registered (s.name ∷ []) fs (register_flag flags parse_duration s fs)
    unfolding register_flag must_parse_duration add_parsed
    register_flag-Registered s fs h fresh = elim (Bool-cases (is_shared_duration_flag s.name)) [
      | inl e ↦ elim h [
        | inl k ↦ absurd (cc (e, k))
        | inr (d, k) ↦
            let (fs', p, q) = r.duration s.name d s.usage fs fresh in
            (fs', rw (e, k) p, λ n. ground (arith, q n))
      ]
      | inr e ↦
          let (fs', p, q) = r.string s.name s.default s.usage fs fresh in
          (fs', rw e p, λ n. ground (arith, q n))
    ]

    still_fresh :
        (s : FlagSpec) (specs : List FlagSpec) (fs fs' : FS)
        → ((n : Str) → defined fs' n ≡ (contains (s.name ∷ []) n || defined fs n))
        → contains (map (λ x. x.name) specs) s.name ≡ false
        → All (λ x. defined fs x.name ≡ false) specs
        → All (λ x. defined fs' x.name ≡ false) specs
    still_fresh s [] fs fs' q h k = tt
    still_fresh s (x ∷ specs) fs fs' q h k =
        (ground (arith, q x.name, h, k.0), still_fresh s specs fs fs' q (ground (arith, h)) k.1)

    register_flags-cons :
        (s : FlagSpec) (specs : List FlagSpec) (fs fs' : FS)
        → register_flag flags parse_duration s fs ≡ some fs'
        → register_flags flags parse_duration (s ∷ specs) fs
          ≡ register_flags flags parse_duration specs fs'
    unfolding register_flags
    register_flags-cons s specs fs fs' e = ground (arith, e)

    register_flags-Registered :
        (specs : List FlagSpec) (fs : FS)
        → All IsParsed specs
        → Nodup (map (λ s. s.name) specs)
        → All (λ s. defined fs s.name ≡ false) specs
        → Registered (map (λ s. s.name) specs) fs (register_flags flags parse_duration specs fs)
    register_flags-Registered [] fs h u f = (fs, unfold register_flags in refl, λ n. refl)
    register_flags-Registered (s ∷ specs) fs h u f =
        let (fs', p, q) = register_flag-Registered s fs h.0 f.0 in
        let (fs'', p', q') =
          register_flags-Registered specs fs' h.1 u.1 (still_fresh s specs fs fs' q u.0 f.1) in
        (fs'', register_flags-cons s specs fs fs' p ∙ p', λ n. ground (arith, q n, q' n))

    shared_names-Nodup : Nodup (map (λ s. s.name) shared_flag_specs)
    unfolding nat_dec list_dec
    shared_names-Nodup = (refl, (refl, (refl, (refl, tt))))

    -- Registering the shared flags on a flag set that has none of them does not panic, and registers
    -- just the four names, if the text `0` is a duration.
    pub register_shared_flags-Registered :
        (zero_duration : ℤ) (fs : FS)
        → parse_duration (codes "0") ≡ some zero_duration
        → All (λ s. defined fs s.name ≡ false) shared_flag_specs
        → (fs' : FS) × (register_shared_flags flags parse_duration fs ≡ some fs')
          × ((n : Str)
              → defined fs' n ≡ (contains (map (λ s. s.name) shared_flag_specs) n || defined fs n))
    unfolding register_shared_flags is_shared_duration_flag
    register_shared_flags-Registered z fs h f =
        register_flags-Registered shared_flag_specs fs
          (inl refl, (inr (z, h), (inr (z, h), (inr (z, h), tt)))) shared_names-Nodup f
