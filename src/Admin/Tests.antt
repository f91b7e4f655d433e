-- ===== src/Admin/Tests.antt =====
-- The theorems on the admin API at a small server.
use caddy_dev_local.Base.{
  ℕ, zero, suc, ◌+◌, ◌≡◌, refl, Bool, true, false, Option, none, some, [], ◌∷◌, ◌==◌, nat_eq,
  list_eq, take, length, ◌≤◌, ap, sym, ◌∙◌, ==_iff, list_dec, nat_dec, if◌then◌else◌,
}
use mathlib.Core.Option
use caddy_dev_local.Base.Dict.{Dict, lookup, NodupKeys}
use caddy_dev_local.Str.{Str, codes}
use caddy_dev_local.Admin.{
  Server, Codec, Log, Request, get, delete, post, put, patch, response, permanent, post_route,
}
use caddy_dev_local.Admin.Patch.{compute_patch}
use caddy_dev_local.Admin.Reconcile.{Known, is_empty, apply_patch, reconcile_devlocal}
use caddy_dev_local.Admin.Reconcile.Cost.{patch_cost, reconcile_devlocal_bound}
use caddy_dev_local.Admin.Reconcile.Unchanged.{IsUp, checks_if, reconcile_devlocal_unchanged}
use caddy_dev_local.Admin.Reconcile.Routes.{Behaves}
use caddy_dev_local.Admin.Reconcile.Refines.{apply_patch-Leaves}

abbrev before : Dict Str Str
before = (codes "a", codes "a1") ∷ (codes "b", codes "b1") ∷ []

abbrev desired : Dict Str Str
desired = (codes "b", codes "b2") ∷ (codes "c", codes "c1") ∷ []

before-NodupKeys : NodupKeys before
unfolding lookup list_dec nat_dec
before-NodupKeys = (refl, (refl, tt))

desired-NodupKeys : NodupKeys desired
unfolding lookup list_dec nat_dec
desired-NodupKeys = (refl, (refl, tt))

-- A server that answers every request with status 200.
abbrev server : Server
server log req = response 200 []

abbrev codec : Codec
codec = record {
  decode_ports = λ s. none;
  encode_server = λ http https. some (codes "{}");
  decode_policies = λ s. some [];
  policy_id = λ s. s;
  encode_policies = λ ps. some (codes "[]");
}

server-IsUp : IsUp server
server-IsUp path log = ([], refl)

abbrev known : Known
known = record { routes = before; policies = desired }

reconcile_devlocal_unchanged_example : reconcile_devlocal server codec before desired known [] ≡ (
  true,
  (
    record { routes = before; policies = desired },
    checks_if server codec server-IsUp (is_empty before) [],
  ),
)
reconcile_devlocal_unchanged_example =
    reconcile_devlocal_unchanged server codec server-IsUp before desired known [] before-NodupKeys
      desired-NodupKeys before-NodupKeys desired-NodupKeys (λ id. refl) (λ id. refl)

-- The ID of an object is its first letter.
abbrev id_of : Str → Str
id_of obj = take 1 obj

abbrev drop : ℕ → Str → Str
drop zero s = s
drop (suc n) [] = []
drop (suc n) (c ∷ s) = drop n s

abbrev text_of : Option Str → Str
text_of none = []
text_of (some s) = s

abbrev after : Request → (Str → Option Str) → Str → Option Str
after req held y = elim req.method [
  | get ↦ held y
  | delete ↦ if y == drop 4 req.path then none else held y
  | post ↦ if y == id_of (text_of req.body) then req.body else held y
  | put ↦ held y
  | patch ↦ if y == drop 4 req.path then req.body else held y
]

-- The routes that the server holds.
abbrev store : Log → Str → Option Str
store [] y = lookup y before
store (req ∷ log) y = after req (store log) y

server-Behaves : Behaves server store id_of
server-Behaves = record {
  deletes = λ log id h. ([], refl, λ y. refl);
  patches = λ log id obj h k. ([], refl, λ y. refl);
  posts = λ log obj h. ([], refl, λ y. refl);
}

own_of :
    (y obj : Str) (b c : Bool)
    → (y == codes "b") ≡ b
    → (y == codes "c") ≡ c
    → (if b then some (codes "b2") else if c then some (codes "c1") else none) ≡ some obj
    → id_of obj ≡ y
own_of y obj true c e f h =
    ap id_of (sym (Option.some-injective (codes "b2") obj h)) ∙ sym ((==_iff y (codes "b")).0 e)
own_of y obj false true e f h =
    ap id_of (sym (Option.some-injective (codes "c1") obj h)) ∙ sym ((==_iff y (codes "c")).0 f)
own_of y obj false false e f h = cc

desired_own : (y obj : Str) → lookup y desired ≡ some obj → id_of obj ≡ y
unfolding lookup
desired_own y obj h = own_of y obj (y == codes "b") (y == codes "c") refl refl h

apply_patch-Leaves_example :
    (log' : Log) × (apply_patch server (post_route server) (compute_patch before desired) []
      ≡ (some tt, log'))
    × ((y : Str) → store log' y ≡ lookup y desired)
apply_patch-Leaves_example =
    apply_patch-Leaves server store id_of server-Behaves before desired before-NodupKeys
      desired-NodupKeys desired_own [] (λ y. refl)

-- A reconciliation with a server that is down.
reconcile_devlocal_bound_example :
    length (reconcile_devlocal (λ log req. permanent) codec before desired known []).1.1
    ≤ 21
      + (patch_cost 3 (compute_patch known.routes before)
          + patch_cost 9 (compute_patch known.policies desired))
      + length {A = Request} []
reconcile_devlocal_bound_example =
    reconcile_devlocal_bound (λ log req. permanent) codec before desired known []
