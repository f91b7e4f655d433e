-- ===== src/Cmd/Adapter.antt =====
-- cmd.go: which file holds the user's configuration, and which adapter reads it.
use caddy_dev_local.Base.{
  Bool, List, [], ◌∷◌, ◌==◌, nat_eq, list_eq, nat_dec, list_dec, ◌||◌, if◌then◌else◌, contains,
}
use caddy_dev_local.Str.{Str, codes, to_lower}
use caddy_dev_local.Str.Cuts.{after_last}

-- `filepath.Ext`: from the last dot of the last element on, with the dot
unfoldable pub extension : Str → Str
unfolding after_last nat_dec
extension path =
    let name = after_last b'/' path in
    if contains name b'.' then b'.' ∷ after_last b'.' name else []

unfoldable pub adapter_of : Str → Str
unfolding nat_dec list_dec
adapter_of ext =
    if ext == codes ".json"
    then codes "json"
    else if ext == codes ".json5"
    then codes "json5"
    else if ext == codes ".yaml" || ext == codes ".yml"
    then codes "yaml"
    else codes "caddyfile"

unfoldable pub adapter_for : Str → Str
unfolding adapter_of to_lower extension
adapter_for config_path = adapter_of (to_lower (extension config_path))

abbrev pub candidates : List Str
candidates =
    codes "Caddyfile"
    ∷ codes "Caddyfile.json"
    ∷ codes "Caddyfile.json5"
    ∷ codes "Caddyfile.yaml"
    ∷ []

-- The loop over the candidates: the first file that is there.
unfoldable pub first_file : (Str → Bool) → List Str → Str
first_file is_file [] = []
first_file is_file (name ∷ names) =
    let rest = first_file is_file names in if is_file name then name else rest

unfoldable pub detect_user_config : (Str → Bool) → Str
unfolding first_file
detect_user_config is_file = first_file is_file candidates

unfoldable pub or_text : Str → Str → Str
or_text [] rest = rest
or_text (c ∷ s) rest = c ∷ s

-- `configPath` of `cmdFunc`: the flag, else the environment, else a file that is there
unfoldable pub config_path : Str → Str → (Str → Bool) → Str
unfolding or_text detect_user_config
config_path from_flag from_env is_file =
    or_text from_flag (or_text from_env (detect_user_config is_file))
