-- ===== src/Caddy/Files/Laws.antt =====
-- What the files of the index page of caddy.go hold after they are written.
use caddy_dev_local.Base.{
  ℕ, ◌≡◌, refl, ap, Bool, true, false, Option, none, some, ==_iff, nat_eq, list_eq, if◌then◌else◌,
}
use caddy_dev_local.Str.{Str}
use caddy_dev_local.Generator.Index.Rows.{unix}
use caddy_dev_local.Caddy.Files.{
  IndexDir, Faults, write_file, is_current, update_file, write_version, write_css_and_version,
  write_index_artifacts,
}

is_current_text :
    (fails : Bool) (file : Option Str) (text : Str)
    → is_current fails file text ≡ true
    → file ≡ some text
unfolding is_current
is_current_text fails none text h = cc
is_current_text true (some old) text h = cc
is_current_text false (some old) text h = ap some ((==_iff old text).0 h)

write_file_text :
    (f : Option (Option Str)) (text : Str)
    → (write_file f text).0 ≡ true
    → (write_file f text).1 ≡ some text
unfolding write_file
write_file_text none text h = refl
write_file_text (some left) text h = cc

update_file_text :
    (reads : Bool) (writes : Option (Option Str)) (file : Option Str) (text : Str)
    → (update_file reads writes file text).0 ≡ true
    → (update_file reads writes file text).1 ≡ some text
unfolding update_file
update_file_text reads writes file text =
    by_test (is_current reads file text) (is_current_text reads file text)
  where
    by_test :
        (b : Bool)
        → (b ≡ true → file ≡ some text)
        → (if b then (true, file) else write_file writes text).0 ≡ true
        → (if b then (true, file) else write_file writes text).1 ≡ some text
    by_test true same h = same refl
    by_test false same h = write_file_text writes text h

-- The three files of the page, and the autosave that is none of them.
abbrev pub Holds : Str → Str → Option Str → Option Str → IndexDir → Type 0
Holds page css version autosave d =
    (d.html ≡ some page) × (d.css ≡ some css) × (d.version ≡ version) × (d.autosave ≡ autosave)

module _ (css : Str) (encode_version : Str → ℕ → Option Str) (f : Faults) where
  abbrev Succeeds : (IndexDir → Type 0) → Bool × IndexDir → Type 0
  Succeeds P (false, d) = Unit
  Succeeds P (true, d) = P d

  version_written :
      (page : Str) (doc : Option Str) (d : IndexDir)
      → d.html ≡ some page
      → d.css ≡ some css
      → Succeeds (Holds page css doc d.autosave) (write_version css encode_version f doc d)
  unfolding write_version write_file
  version_written page none d h k = tt
  version_written page (some doc) d h k = by_fault f.write_version
    where
      by_fault :
          (w : Option (Option Str))
          → Succeeds
              (Holds page css (some doc) d.autosave)
              ((write_file w doc).0, record d { version = (write_file w doc).1 })
      by_fault none = (h, k, refl, refl)
      by_fault (some left) = tt

  css_written :
      (page fp : Str) (now : ℕ) (d : IndexDir)
      → d.html ≡ some page
      → Succeeds
          (Holds page css (encode_version fp (unix now)) d.autosave)
          (write_css_and_version css encode_version f fp now d)
  unfolding write_css_and_version
  css_written page fp now d h =
      by_write (update_file f.read_css f.write_css d.css css)
        (update_file_text f.read_css f.write_css d.css css)
    where
      by_write :
          (w : Bool × Option Str)
          → (w.0 ≡ true → w.1 ≡ some css)
          → Succeeds (Holds page css (encode_version fp (unix now)) d.autosave) (
              if w.0
              then write_version css encode_version f
                  (encode_version fp (unix now))
                  (record d { css = w.1 })
              else (false, record d { css = w.1 }))
      by_write (false, file) k = tt
      by_write (true, file) k =
          version_written page (encode_version fp (unix now)) (record d { css = file }) h (k refl)

  page_written :
      (page fp : Str) (now : ℕ) (d : IndexDir)
      → Succeeds
          (Holds page css (encode_version fp (unix now)) d.autosave)
          (write_index_artifacts css encode_version f page fp now d)
  unfolding write_index_artifacts
  page_written page fp now d =
      by_write (update_file f.read_html f.write_html d.html page)
        (update_file_text f.read_html f.write_html d.html page)
    where
      by_write :
          (w : Bool × Option Str)
          → (w.0 ≡ true → w.1 ≡ some page)
          → Succeeds (Holds page css (encode_version fp (unix now)) d.autosave) (
              if w.0
              then write_css_and_version css encode_version f fp now (record d { html = w.1 })
              else (false, record d { html = w.1 }))
      by_write (false, file) k = tt
      by_write (true, file) k = css_written page fp now (record d { html = file }) (k refl)

  -- If writing the files of the index page succeeds, whichever reads and writes failed on the way, they
  -- hold the page, the style sheet and the version of the fingerprint, and the autosave is as it was.
  pub write_index_artifacts-Holds :
      (page fp : Str) (now : ℕ) (d : IndexDir)
      → (write_index_artifacts css encode_version f page fp now d).0 ≡ true
      → Holds page css
          (encode_version fp (unix now))
          d.autosave
          (write_index_artifacts css encode_version f page fp now d).1
  write_index_artifacts-Holds page fp now d h =
      go (write_index_artifacts css encode_version f page fp now d) (page_written page fp now d) h
    where
      go :
          (o : Bool × IndexDir)
          → Succeeds (Holds page css (encode_version fp (unix now)) d.autosave) o
          → o.0 ≡ true
          → Holds page css (encode_version fp (unix now)) d.autosave o.1
      go (false, d') k e = absurd (cc e)
      go (true, d') k e = k
