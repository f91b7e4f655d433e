-- ===== src/Caddy/Files.antt =====
-- caddy.go: the running configuration that is shown, and the files of the index page.
-- `json.Indent`, `json.Marshal` of the version and the embedded style sheet are arguments. What the
-- system makes of each call on a file is the argument `Faults`.
pub mod Laws
use caddy_dev_local.Base.{
  ℕ, Bool, true, false, Option, none, some, [], ◌∷◌, ◌==◌, nat_eq, list_eq, nat_dec, list_dec, not,
  if◌then◌else◌,
}
use caddy_dev_local.Str.{Str, codes}
use caddy_dev_local.Admin.{Server, Log, Outcome, get_config}
use caddy_dev_local.Generator.Index.Rows.{unix}

-- The files in the index directory; `none` is a file that does not exist.
pub record IndexDir : Type 0 where
  pub html : Option Str
  pub css : Option Str
  pub version : Option Str
  pub autosave : Option Str

-- `lastConfigCache`, and the index directory
pub record Store : Type 0 where
  pub last_config : Option Str
  pub dir : IndexDir

-- Which calls fail. A write that fails leaves what is inside `some`.
pub record Faults : Type 0 where
  pub read_html : Bool
  pub read_css : Bool
  pub write_html : Option (Option Str)
  pub write_css : Option (Option Str)
  pub write_version : Option (Option Str)
  pub write_autosave : Option (Option Str)

unfoldable pub or_no_text : Option Str → Str
or_no_text none = []
or_no_text (some s) = s

unfoldable pub indented : Option Str → Str → Log → Store → Str × (Log × Store)
indented none body log st = (body, (log, st))
indented (some s) body log st = (s, (log, record st { last_config = some s }))

-- `fetchRunningConfig`, from what the request returns
unfoldable pub running_config : (Str → Option Str) → Outcome (ℕ × Str) → Store → Str × (Log × Store)
unfolding or_no_text indented nat_dec
running_config indent (none, log) st = (or_no_text st.last_config, (log, st))
running_config indent (some (status, body), log) st =
    if status == 200
    then indented (indent body) body log st
    else (or_no_text st.last_config, (log, st))

unfoldable pub fetch_running_config :
    Server → (Str → Option Str) → Log → Store → Str × (Log × Store)
unfolding running_config
fetch_running_config server indent log st =
    running_config indent (get_config server (codes "/config/") log) st

-- `os.WriteFile`: whether it succeeds, and the file afterwards
unfoldable pub write_file : Option (Option Str) → Str → Bool × Option Str
write_file none text = (true, some text)
write_file (some left) text = (false, left)

-- `existing, err := os.ReadFile(path); err != nil || string(existing) != text` is false.
unfoldable pub is_current : Bool → Option Str → Str → Bool
unfolding nat_dec list_dec
is_current fails none text = false
is_current true (some existing) text = false
is_current false (some existing) text = existing == text

unfoldable pub update_file : Bool → Option (Option Str) → Option Str → Str → Bool × Option Str
unfolding is_current write_file
update_file read_fails write_fails file text =
    if is_current read_fails file text then (true, file) else write_file write_fails text

module _ (css : Str) (encode_version : Str → ℕ → Option Str) (f : Faults) where
  -- From the version document on.
  unfoldable pub write_version : Option Str → IndexDir → Bool × IndexDir
  unfolding write_file
  write_version none d = (false, d)
  write_version (some doc) d =
      let w = write_file f.write_version doc in (w.0, record d { version = w.1 })

  unfoldable pub write_css_and_version : Str → ℕ → IndexDir → Bool × IndexDir
  unfolding update_file write_version unix
  write_css_and_version fp now d =
      let w = update_file f.read_css f.write_css d.css css in
      let d' = record d { css = w.1 } in
      if w.0 then write_version (encode_version fp (unix now)) d' else (false, d')

  unfoldable pub write_index_artifacts : Str → Str → ℕ → IndexDir → Bool × IndexDir
  unfolding update_file write_css_and_version
  write_index_artifacts page fp now d =
      let w = update_file f.read_html f.write_html d.html page in
      let d' = record d { html = w.1 } in
      if w.0 then write_css_and_version fp now d' else (false, d')

  -- `writeDevlocalAutosave`, from what `json.MarshalIndent` returns; an error is logged only.
  unfoldable pub write_autosave : Option Str → IndexDir → IndexDir
  unfolding write_file
  write_autosave none d = d
  write_autosave (some data_text) d = record d {
    autosave = (write_file f.write_autosave data_text).1;
  }

-- `unixOrZero`
unfoldable pub unix_or_zero : Option ℕ → ℕ
unfolding unix
unix_or_zero none = 0
unix_or_zero (some t) = unix t
