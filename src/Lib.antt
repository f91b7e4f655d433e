-- ===== src/Lib.antt =====
-- caddy-dev-local proxies containers under local domains: it lists the containers of Docker, chooses
-- a port of each, derives domains, keeps the domains in the hosts file, and brings the routes of a
-- running Caddy to the domains. The generator is refreshed by the event loop and by a poll; after
-- each refresh the hosts file is synced and the configuration is reloaded. This library models the
-- parts that decide, and proves what they promise each other.
--
-- The files and the code that they model:
--   Base, Str         lists, maps, sorting; Go strings and what is used of strings, fmt, strconv
--   Config            config/config.go: settings, environment, overrides
--   Config.Flags      config/flags.go: the flags that both commands share
--   Tld               generator/generator.go: TLDLocalhost
--   Docker            docker/client.go: what is read of a listed container
--   Generator         generator/generator.go: the entry of a container and the functions on it
--   Generator.Custom  parseCustomDomains
--   Generator.Build   discoverSelf, reachability, buildContainerInfo, extractPorts
--   Generator.Refresh Refresh, refreshLocked, StaleCleanup
--   Generator.Select  selectPortsLocked, RefreshAndSelect; generator/probe.go
--   Generator.Domains DomainTargets, Domains, Containers
--   Generator.Icons   generator/icons.go: the tables and the choice of an icon
--   Generator.Index   generator/index.go: rows, groups and counts of the index page
--   Hosts             hosts/hosts.go: syncToFile, removeFromFile and the functions they call
--   Discovery         discovery/discovery.go: the event loop, the poll and the cleanup loop
--   Builder           builder.go: routes, index route and TLS policy as JSON values
--   Admin             admin.go: requests, ensureServer, prependTLSPolicy
--   Admin.Patch       computePatch
--   Admin.Reconcile   reconcileDevlocal
--   Caddy             caddy.go: reloadCaddyConfig, fingerprintState, fingerprintDomains
--   Caddy.Files       fetchRunningConfig, writeIndexArtifacts, writeDevlocalAutosave
--   Caddy.UserConfig  parseCaddyfileListenPorts, adaptUserConfig, injectListenPorts
--   Caddy.Startup     initCaddyConfig, postDevlocalViaAPI
--   Cmd               cmd.go: applyCommandFlags, applyDevlocal, syncHosts
--   Cmd.Adapter       adapterFor, detectUserConfig, the path of the user's configuration
--   Cmd.Start         cmdFunc
--   Cmd.Clean         cleanFunc; cmd/devlocal-hosts/main.go
--   Cmd.Turns         the turns of the loops, each a refresh or a cleanup with its application
-- A module below one of these holds its laws; the witnesses stand in modules called Tests.
--
-- How the state is modelled. A string is the list of its code points. A Go map is a list of entries
-- in the order in which range visits it; theorems hold for every such order. A point in time is a
-- number of nanoseconds, and the zero time is none. The map of the generator is passed in and
-- returned; its mutex makes each method one step. The disk of Hosts is the hosts file and the
-- temporary file beside it, and which calls fail is an argument. The loop of Discovery takes one
-- step for each value that select receives. The server of Admin is a function of the requests so
-- far. A panic is none.
--
-- What is an argument: the environment, os.Stat and time.ParseDuration (Config), the flag sets
-- (Config.Flags), what Docker answers (Generator), whether a port responds (Generator.Select), the
-- template, the formatting of a time and the JSON encoder (Generator.Index), what a refresh answers
-- (Discovery), json.Marshal (Builder), the admin API and the JSON codec (Admin), the hash, the
-- Caddyfile parser, the adapters, caddy.Load and which calls on files fail (Caddy, Hosts). A
-- hypothesis on them has a witness with a concrete function.
--
-- Bounds. A printed number gets one more unit of fuel than its value, which is enough as each digit
-- divides it by ten. A request is tried three times, as the code has it. Ports are numbers up to
-- 65535 where they are read from a label; Docker reports 16-bit ports. An int is read within 64
-- bits. All other loops run over lists.
--
-- Not modelled: signals, logging and the registration of the commands (cmd.go), the HTTP client and
-- the wait between two tries (admin.go), the HTTP probe itself (generator/probe.go), the calls of the
-- Docker API (docker/client.go), generator/tls.go (one setting). They call libraries and decide
-- nothing. On case folding, only the letters that fold to ASCII are modelled, as the code compares
-- with ASCII constants only.
pub mod Base
pub mod Str
pub mod Config
pub mod Tld
pub mod Hosts
pub mod Docker
pub mod Generator
pub mod Discovery
pub mod Builder
pub mod Admin
pub mod Caddy
pub mod Cmd
