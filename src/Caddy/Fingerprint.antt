-- ===== src/Caddy/Fingerprint.antt =====
-- What is written for the fingerprint of the domains in caddy.go tells the domains and their targets.
use mathlib.Core.Path.{ap₂}
use mathlib.Core.List.{cons-ne-nil, nil≢cons, head-eq_of_cons-eq, tail-eq_of_cons-eq}
use mathlib.Core.List
use caddy_dev_local.Base.{
  ◌≡◌, ◌≢◌, refl, sym, ap, ◌∙◌, List, [], ◌∷◌, ◌++◌, nat_eq, list_eq, arith, All, All-append,
}
use caddy_dev_local.Base.Dict.{Dict, lookup, keys}
use caddy_dev_local.Base.Sort.{sort}
use caddy_dev_local.Str.{Str, Lacks, newline, split, str_le}
use caddy_dev_local.Str.Lines.{split-append_sep}
use caddy_dev_local.Builder.{or_nil}
use caddy_dev_local.Caddy.{ended_by_zero, domains_text, fingerprint_domains}

-- A domain and its sorted targets, for each domain.
abbrev pub rows : Dict Str (List Str) → List Str → List (List Str)
rows targets [] = []
rows targets (d ∷ ds) = (d ∷ sort str_le (or_nil (lookup d targets))) ∷ rows targets ds

abbrev pub rows_text : List (List Str) → Str
rows_text [] = []
rows_text (r ∷ rs) = ended_by_zero r ++ (newline ∷ rows_text rs)

domains_text-rows :
    (targets : Dict Str (List Str)) (ds : List Str)
    → domains_text targets ds ≡ rows_text (rows targets ds)
unfolding domains_text
domains_text-rows targets [] = refl
domains_text-rows targets (d ∷ ds) =
    ap (λ t. ended_by_zero (d ∷ sort str_le (or_nil (lookup d targets))) ++ (newline ∷ t))
      (domains_text-rows targets ds)

-- A text with neither a zero byte nor a newline.
abbrev pub IsClean : Str → Type 0
IsClean t = Lacks 0 t × Lacks newline t

ended_by_zero-Lacks : (ts : List Str) → All IsClean ts → Lacks newline (ended_by_zero ts)
unfolding ended_by_zero
ended_by_zero-Lacks [] h = tt
ended_by_zero-Lacks (t ∷ ts) h =
    All-append (λ c. c ≢ newline) t (0 ∷ ended_by_zero ts) h.0.1
      (omega arith, ended_by_zero-Lacks ts h.1)

split-ended_by_zero :
    (ts : List Str) → All IsClean ts → split 0 (ended_by_zero ts) ≡ ts ++ ([] ∷ [])
unfolding ended_by_zero
split-ended_by_zero [] h = unfold split in refl
split-ended_by_zero (t ∷ ts) h =
    split-append_sep 0 t (ended_by_zero ts) h.0.0 ∙ ap (◌∷◌ t) (split-ended_by_zero ts h.1)

-- The line of each row.
abbrev pub lines_of : List (List Str) → List Str
lines_of [] = []
lines_of (r ∷ rs) = ended_by_zero r ∷ lines_of rs

split-rows_text :
    (rs : List (List Str))
    → All (All IsClean) rs
    → split newline (rows_text rs) ≡ lines_of rs ++ ([] ∷ [])
split-rows_text [] h = unfold split in refl
split-rows_text (r ∷ rs) h =
    split-append_sep newline (ended_by_zero r) (rows_text rs) (ended_by_zero-Lacks r h.0)
    ∙ ap (◌∷◌ (ended_by_zero r)) (split-rows_text rs h.1)

ended_by_zero-injective :
    (ts us : List Str)
    → All IsClean ts
    → All IsClean us
    → ended_by_zero ts ≡ ended_by_zero us
    → ts ≡ us
ended_by_zero-injective ts us h k e =
    List.append_cancel_right ts us ([] ∷ [])
      (sym (split-ended_by_zero ts h) ∙ (ap (split 0) e ∙ split-ended_by_zero us k))

lines_of-injective :
    (rs ss : List (List Str))
    → All (All IsClean) rs
    → All (All IsClean) ss
    → lines_of rs ≡ lines_of ss
    → rs ≡ ss
lines_of-injective [] [] h k e = refl
lines_of-injective [] (s ∷ ss) h k e = absurd (nil≢cons e)
lines_of-injective (r ∷ rs) [] h k e = absurd (cons-ne-nil _ _ e)
lines_of-injective (r ∷ rs) (s ∷ ss) h k e =
    ap₂ ◌∷◌ (ended_by_zero-injective r s h.0 k.0 (head-eq_of_cons-eq e))
      (lines_of-injective rs ss h.1 k.1 (tail-eq_of_cons-eq e))

rows_text-injective :
    (rs ss : List (List Str))
    → All (All IsClean) rs
    → All (All IsClean) ss
    → rows_text rs ≡ rows_text ss
    → rs ≡ ss
rows_text-injective rs ss h k e = lines_of-injective rs ss h k (
    List.append_cancel_right (lines_of rs) (lines_of ss) ([] ∷ [])
      (sym (split-rows_text rs h) ∙ (ap (split newline) e ∙ split-rows_text ss k)))

-- The domains in order, each with its sorted targets.
abbrev pub table : Dict Str (List Str) → List (List Str)
table targets = rows targets (sort str_le (keys targets))

-- Suppose that the hash does not collide on the two texts that are hashed, and that no domain and no
-- target has a zero byte or a newline. Then equal fingerprints mean the same domains with the same
-- targets.
pub fingerprint_domains-injective :
    (hash : Str → Str) (targets others : Dict Str (List Str))
    → All (All IsClean) (table targets)
    → All (All IsClean) (table others)
    → (hash (domains_text targets (sort str_le (keys targets)))
          ≡ hash (domains_text others (sort str_le (keys others)))
        → domains_text targets (sort str_le (keys targets))
          ≡ domains_text others (sort str_le (keys others)))
    → fingerprint_domains hash targets ≡ fingerprint_domains hash others
    → table targets ≡ table others
unfolding fingerprint_domains
fingerprint_domains-injective hash targets others h k c e =
    rows_text-injective (table targets) (table others) h k (
      sym (domains_text-rows targets (sort str_le (keys targets)))
      ∙ (c e ∙ domains_text-rows others (sort str_le (keys others))))
