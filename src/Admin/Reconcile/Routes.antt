-- ===== src/Admin/Reconcile/Routes.antt =====
-- The patch of the routes, sent to a server that does what the admin API documents.
use mathlib.Core.Path.{subst}
use caddy_dev_local.Base.{
  ℕ, ◌≡◌, ◌≢◌, ◌++◌, suc, refl, sym, ap, ◌∙◌, true, Option, none, some, List, [], ◌∷◌, ◌==◌,
  ==_refl, nat_eq, list_eq, if◌then◌else◌, contains, arith,
}
use caddy_dev_local.Base.Dict.{Dict, lookup}
use caddy_dev_local.Base.Distinct.{Nodup}
use caddy_dev_local.Str.{Str, codes}
use caddy_dev_local.Admin.{
  Server, Log, Request, delete, patch, post, response, tries, do_request, request, do_delete,
  do_post, delete_by_id, patch_by_id, post_route, server_path, Outcome, and_then, and_then-some,
  only_if, is_success,
}
use caddy_dev_local.Admin.Reconcile.{
  object_of, delete_all, update_one, settle_update, update_all, add_all,
}

abbrev pub delete_of : Str → Request
delete_of id = record { method = delete; path = codes "/id/" ++ id; body = none }

abbrev pub patch_of : Str → Str → Request
patch_of id obj = record { method = patch; path = codes "/id/" ++ id; body = some obj }

abbrev pub post_of : Str → Request
post_of obj = record { method = post; path = server_path ++ codes "/routes/-"; body = some obj }

-- What the admin API of Caddy documents of the objects that have an ID: a DELETE of an object that is
-- there removes it, a PATCH replaces it, and a POST of a route whose ID is not there adds it; the
-- answer has status 200. `store` is the object under an ID after some requests, `id_of` the ID that an
-- object has.
pub record Behaves (server : Server) (store : Log → Str → Option Str) (id_of : Str → Str)
    : Type 0 where
  pub deletes :
      (log : Log) (id : Str)
      → store log id ≢ none
      → (body : Str) × (server log (delete_of id) ≡ response 200 body)
        × ((y : Str) → store (delete_of id ∷ log) y ≡ (if y == id then none else store log y))
  pub patches :
      (log : Log) (id obj : Str)
      → store log id ≢ none
      → id_of obj ≡ id
      → (body : Str) × (server log (patch_of id obj) ≡ response 200 body)
        × ((y : Str)
            → store (patch_of id obj ∷ log) y ≡ (if y == id then some obj else store log y))
  pub posts :
      (log : Log) (obj : Str)
      → store log (id_of obj) ≡ none
      → (body : Str) × (server log (post_of obj) ≡ response 200 body)
        × ((y : Str)
            → store (post_of obj ∷ log) y ≡ (if y == id_of obj then some obj else store log y))

module _ (server : Server) (store : Log → Str → Option Str) (id_of : Str → Str)
    (good : Behaves server store id_of) where
  -- It returns without an error, and afterwards the server holds what the function says.
  abbrev pub Leaves : Outcome Unit → (Str → Option Str) → Type 0
  Leaves o held = (log : Log) × (o ≡ (some tt, log)) × ((y : Str) → store log y ≡ held y)

  tries-response :
      (n : ℕ) (req : Request) (log : Log) (status : ℕ) (body : Str)
      → server log req ≡ response status body
      → tries server (suc n) req log ≡ (some (status, body), req ∷ log)
  unfolding tries
  tries-response n req log status body e = rw (e, tries) refl

  deleted :
      (id : Str) (log : Log) (h : store log id ≢ none)
      → delete_by_id server id log ≡ (some tt, delete_of id ∷ log)
  unfolding delete_by_id do_delete request do_request and_then only_if
  deleted id log h =
      rw
        (tries-response 2 (delete_of id) log 200 (good.deletes log id h).0
          (good.deletes log id h).1)
        (ground arith)

  posted :
      (obj : Str) (log : Log) (h : store log (id_of obj) ≡ none)
      → post_route server obj log ≡ (some tt, post_of obj ∷ log)
  unfolding post_route do_post request do_request and_then only_if is_success
  posted obj log h =
      rw (tries-response 2 (post_of obj) log 200 (good.posts log obj h).0 (good.posts log obj h).1)
        (ground arith)

  patched :
      (id obj : Str) (log : Log)
      → store log id ≢ none
      → id_of obj ≡ id
      → update_one server (post_route server) id obj log ≡ (some tt, patch_of id obj ∷ log)
  unfolding update_one patch_by_id settle_update request do_request and_then only_if is_success
  patched id obj log h k =
      rw
        (tries-response 2 (patch_of id obj) log 200 (good.patches log id obj h k).0
          (good.patches log id obj h k).1)
        (ground arith)

  delete_all-cons :
      (id : Str) (ids : List Str) (log log' : Log)
      → delete_by_id server id log ≡ (some tt, log')
      → delete_all server (id ∷ ids) log ≡ delete_all server ids log'
  unfolding delete_all
  delete_all-cons id ids log log' e = and_then-some _ tt log' _ e

  update_all-cons :
      (updated : Dict Str Str) (id : Str) (ids : List Str) (log log' : Log)
      → update_one server (post_route server) id (object_of (lookup id updated)) log
        ≡ (some tt, log')
      → update_all server (post_route server) updated (id ∷ ids) log
        ≡ update_all server (post_route server) updated ids log'
  unfolding update_all
  update_all-cons updated id ids log log' e = and_then-some _ tt log' _ e

  add_all-cons :
      (added : Dict Str Str) (id : Str) (ids : List Str) (log log' : Log)
      → post_route server (object_of (lookup id added)) log ≡ (some tt, log')
      → add_all server (post_route server) added (id ∷ ids) log
        ≡ add_all server (post_route server) added ids log'
  unfolding add_all
  add_all-cons added id ids log log' e = and_then-some _ tt log' _ e

  pub delete_all-Leaves :
      (ids : List Str) (log : Log)
      → Nodup ids
      → ((y : Str) → contains ids y ≡ true → store log y ≢ none)
      → Leaves (delete_all server ids log) (λ y. if contains ids y then none else store log y)
  delete_all-Leaves [] log u h = (log, unfold delete_all in refl, λ y. refl)
  delete_all-Leaves (id ∷ ids) log u h =
      let here : store log id ≢ none = h id (ground (arith, ==_refl id)) in
      let (body, r, f) = good.deletes log id here in
      let (log', e, g) =
        delete_all-Leaves ids (delete_of id ∷ log) u.1
          (λ y c. subst (λ o. o ≢ none) (sym (f y)) (ground (arith, u.0, h y, c))) in
      (
        log',
        delete_all-cons id ids log (delete_of id ∷ log) (deleted id log here) ∙ e,
        λ y. g y ∙ ground (arith, f y),
      )

  pub update_all-Leaves :
      (updated : Dict Str Str) (ids : List Str) (log : Log)
      → ((y : Str) → contains ids y ≡ true → store log y ≢ none)
      → ((y : Str) → contains ids y ≡ true → id_of (object_of (lookup y updated)) ≡ y)
      → Leaves
          (update_all server (post_route server) updated ids log)
          (λ y. if contains ids y then some (object_of (lookup y updated)) else store log y)
  update_all-Leaves updated [] log h k = (log, unfold update_all in refl, λ y. refl)
  update_all-Leaves updated (id ∷ ids) log h k =
      let obj : Str = object_of (lookup id updated) in
      let here : store log id ≢ none = h id (ground (arith, ==_refl id)) in
      let own : id_of obj ≡ id = k id (ground (arith, ==_refl id)) in
      let (body, r, f) = good.patches log id obj here own in
      let (log', e, g) =
        update_all-Leaves updated ids (patch_of id obj ∷ log)
          (λ y c. subst (λ o. o ≢ none) (sym (f y)) (ground (arith, h y, c)))
          (λ y c. k y (ground (arith, c))) in
      (
        log',
        update_all-cons updated id ids log (patch_of id obj ∷ log) (patched id obj log here own)
            ∙ e,
        λ y. g y ∙ ground (arith, f y),
      )

  pub add_all-Leaves :
      (added : Dict Str Str) (ids : List Str) (log : Log)
      → Nodup ids
      → ((y : Str) → contains ids y ≡ true → store log y ≡ none)
      → ((y : Str) → contains ids y ≡ true → id_of (object_of (lookup y added)) ≡ y)
      → Leaves
          (add_all server (post_route server) added ids log)
          (λ y. if contains ids y then some (object_of (lookup y added)) else store log y)
  add_all-Leaves added [] log u h k = (log, unfold add_all in refl, λ y. refl)
  add_all-Leaves added (id ∷ ids) log u h k =
      let obj : Str = object_of (lookup id added) in
      let own : id_of obj ≡ id = k id (ground (arith, ==_refl id)) in
      let free : store log (id_of obj) ≡ none =
        ap (store log) own ∙ h id (ground (arith, ==_refl id)) in
      let (body, r, f) = good.posts log obj free in
      let (log', e, g) =
        add_all-Leaves added ids (post_of obj ∷ log) u.1
          (λ y c. f y ∙ ground (arith, u.0, h y, c, own)) (λ y c. k y (ground (arith, c))) in
      (
        log',
        add_all-cons added id ids log (post_of obj ∷ log) (posted obj log free) ∙ e,
        λ y. g y ∙ ground (arith, f y, own),
      )
