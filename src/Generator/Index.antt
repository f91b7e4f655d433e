-- ===== src/Generator/Index.antt =====
-- generator/index.go: what the index page shows, from what the generator knows of the containers.
-- The template, the encoder of JSON and the formatting of a time are arguments.
pub mod Chips
pub mod Rows
pub mod Groups
pub mod Laws
pub mod Urls
pub mod Links
pub mod Listing
pub mod Entries
pub mod Partition
mod Tests
use caddy_dev_local.Base.{
  ℕ, Bool, true, false, Option, none, some, List, [], ◌∷◌, ◌++◌, ◌==◌, nat_eq, nat_dec, ◌⊎◌, inl,
  inr, if◌then◌else◌, map,
}
use caddy_dev_local.Base.Dict.{Dict}
use caddy_dev_local.Str.{Str, codes}
use caddy_dev_local.Generator.{ContainerInfo}
use caddy_dev_local.Generator.Index.Rows.{IndexRow, index_row}
use caddy_dev_local.Generator.Index.Groups.{
  DisplayGroup, top_rows, display_groups, total_count, is_stopped,
}

pub record IndexData : Type 0 where
  pub tld : Str
  pub display_rows : List IndexRow
  pub groups : List DisplayGroup
  pub running_count : ℕ
  pub stopped_count : ℕ
  pub config_json : Str
  pub config_json_raw : Str
  pub discovery_error : Str
  pub last_refresh_unix : ℕ

-- `strings.ReplaceAll(s, old, new)` for one character
unfoldable pub replace_all : ℕ → Str → Str → Str
unfolding nat_dec
replace_all old new [] = []
replace_all old new (c ∷ s) =
    let rest = replace_all old new s in if c == old then new ++ rest else c ∷ rest

unfoldable pub escaped : Str → Str
unfolding replace_all
escaped s =
    replace_all b'>' (codes "\\u003e")
      (replace_all b'<' (codes "\\u003c") (replace_all b'&' (codes "\\u0026") s))

unfoldable pub or_escaped : Option Str → Str → Str
unfolding escaped
or_escaped none s = escaped s
or_escaped (some b) s = b

-- `recode` is `json.Unmarshal` and `json.Marshal` of the result, if neither fails.
unfoldable pub safe_config_json_js : (Str → Option Str) → Str → Str
unfolding or_escaped
safe_config_json_js recode [] = []
safe_config_json_js recode (c ∷ s) = or_escaped (recode (c ∷ s)) (c ∷ s)

unfoldable pub page_or_error : Str ⊎ Str → Str
page_or_error (inl message) = codes "template error: " ++ message
page_or_error (inr page) = page

module _ (format_time : ℕ → Str) (marshal : Dict Str Str → Option Str)
    (recode : Str → Option Str) where
  unfoldable pub index_data : Str → Bool → List ContainerInfo → Str → Str → ℕ → IndexData
  unfolding index_row top_rows display_groups total_count is_stopped safe_config_json_js
  index_data tld standalone containers config_json discovery_error last_refresh =
      let rows = map (index_row format_time marshal tld standalone) containers in
      record {
        tld = tld;
        display_rows = top_rows rows;
        groups = display_groups rows;
        running_count = total_count (λ r. r.is_running) (top_rows rows) (display_groups rows);
        stopped_count = total_count is_stopped (top_rows rows) (display_groups rows);
        config_json = config_json;
        config_json_raw = safe_config_json_js recode config_json;
        discovery_error = discovery_error;
        last_refresh_unix = last_refresh;
      }

  -- `execute` is the template: an error's message, or the page.
  unfoldable pub generate_index_page :
      (IndexData → Str ⊎ Str) → Str → Bool → List ContainerInfo → Str → Str → ℕ → Str
  unfolding index_data page_or_error
  generate_index_page execute tld standalone containers config_json discovery_error last_refresh =
      page_or_error
        (execute (index_data tld standalone containers config_json discovery_error last_refresh))
