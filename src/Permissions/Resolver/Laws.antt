-- ===== src/Permissions/Resolver/Laws.antt =====
-- What `PermissionsForRoles` returns, and whom `RequirePermission` lets through.
use masterfabric_backend.Prelude.{
  ◌≡◌, refl, sym, ap, ◌∙◌, ◌↔◌, inl, inr, Bool, true, false, ◌||◌, List, [], ◌∷◌, ◌++◌, Memᴰ,
  String, some, any, any_elim, any_intro, arith, ◌==◌, list_eq, nat_eq, string_eq, if◌then◌else◌,
  Bool-cases, length, list_beq_iff,
}
use masterfabric_backend.Prelude.Text.{Text}
use masterfabric_backend.Permissions.{match_permission}
use masterfabric_backend.Permissions.Wildcard.{Covers, match_permission_iff}
use masterfabric_backend.Permissions.Resolver.{
  Cache, permissions_named, is_seen, add_permissions, add_roles, permissions_for_roles, pass,
  require_permission,
}

-- No permission stands twice.
abbrev pub Distinct : List Text → Type 0
Distinct [] = Unit
Distinct (p ∷ ps) = (is_seen ps p ≡ false) × Distinct ps

is_seen-append :
    (xs ys : List Text) (p : Text) → is_seen (xs ++ ys) p ≡ (is_seen xs p || is_seen ys p)
unfolding is_seen
is_seen-append [] ys p = refl
is_seen-append (x ∷ xs) ys p = ground (arith, is_seen-append xs ys p)

Distinct-snoc :
    (xs : List Text) (p : Text) → Distinct xs → is_seen xs p ≡ false → Distinct (xs ++ p ∷ [])
unfolding is_seen
Distinct-snoc [] p d h = (refl, tt)
Distinct-snoc (x ∷ xs) p (fresh, d) h = (
  ground (arith, is_seen-append xs (p ∷ []) x, list_beq_iff p x, list_beq_iff x p),
  Distinct-snoc xs p d (ground arith),
)

-- The loops keep `seen` and `out` at the same elements, and `out` free of repetitions.
record IsSynced (acc : List Text × List Text) : Type 0 where
  same : (q : Text) → is_seen acc.0 q ≡ is_seen acc.1 q
  distinct : Distinct acc.1

abbrev add_one : List Text × List Text → Text → List Text × List Text
add_one (seen, out) p = if is_seen seen p then (seen, out) else (p ∷ seen, out ++ p ∷ [])

add_one-IsSynced :
    (acc : List Text × List Text) (p : Text) → IsSynced acc → IsSynced (add_one acc p)
unfolding is_seen
add_one-IsSynced (seen, out) p s = elim (Bool-cases (is_seen seen p)) [
  | inl e ↦ rw e s
  | inr e ↦ rw e (record {
    same = λ q. ground (arith, s.same q, is_seen-append out (p ∷ []) q);
    distinct = Distinct-snoc out p s.distinct (sym (s.same p) ∙ e);
  })
]

add_one-seen :
    (acc : List Text × List Text) (p q : Text)
    → IsSynced acc
    → is_seen (add_one acc p).1 q ≡ (is_seen acc.1 q || p == q)
unfolding is_seen
add_one-seen (seen, out) p q s = elim (Bool-cases (is_seen seen p)) [
  | inl e ↦ rw e (
      ground (arith, s.same p, list_beq_iff p q, λ (h : p ≡ q). ap (λ (r : Text). is_seen out r) h))
  | inr e ↦ rw e (ground (arith, is_seen-append out (p ∷ []) q))
]

add_permissions-IsSynced :
    (acc : List Text × List Text) (ps : List Text)
    → IsSynced acc
    → IsSynced (add_permissions acc ps)
unfolding add_permissions
add_permissions-IsSynced (seen, out) [] s = s
add_permissions-IsSynced (seen, out) (p ∷ ps) s =
    add_permissions-IsSynced (add_one (seen, out) p) ps (add_one-IsSynced (seen, out) p s)

add_permissions-seen :
    (acc : List Text × List Text) (ps : List Text) (q : Text)
    → IsSynced acc
    → is_seen (add_permissions acc ps).1 q ≡ (is_seen acc.1 q || is_seen ps q)
unfolding add_permissions is_seen
add_permissions-seen (seen, out) [] q s = ground arith
add_permissions-seen (seen, out) (p ∷ ps) q s =
    add_permissions-seen (add_one (seen, out) p) ps q (add_one-IsSynced (seen, out) p s)
    ∙ rw add_one-seen (ground arith)

add_roles-IsSynced :
    (cache : Cache) (acc : List Text × List Text) (names : List String)
    → IsSynced acc
    → IsSynced (add_roles cache acc names)
unfolding add_roles
add_roles-IsSynced cache acc [] s = s
add_roles-IsSynced cache acc (rn ∷ names) s =
    add_roles-IsSynced cache (add_permissions acc (permissions_named cache rn)) names
      (add_permissions-IsSynced acc (permissions_named cache rn) s)

abbrev holds : Cache → Text → String → Bool
holds cache q rn = is_seen (permissions_named cache rn) q

add_roles-seen :
    (cache : Cache) (acc : List Text × List Text) (names : List String) (q : Text)
    → IsSynced acc
    → is_seen (add_roles cache acc names).1 q ≡ (is_seen acc.1 q || any (holds cache q) names)
unfolding add_roles
add_roles-seen cache acc [] q s = ground arith
add_roles-seen cache acc (rn ∷ names) q s =
    let acc' = add_permissions acc (permissions_named cache rn) in
    add_roles-seen cache acc' names q (add_permissions-IsSynced acc (permissions_named cache rn) s)
    ∙ ground (arith, add_permissions-seen acc (permissions_named cache rn) q s)

IsSynced-nil : IsSynced ([], [])
IsSynced-nil = record { same = λ q. refl; distinct = tt }

-- `PermissionsForRoles` lists no permission twice, and lists one exactly when the cache has it
-- under one of the role names; a name that the cache lacks adds nothing.
pub permissions_for_roles_lem :
    (cache : Cache) (names : List String)
    → Distinct (permissions_for_roles cache names)
      × ((q : Text)
          → is_seen (permissions_for_roles cache names) q
            ≡ any (λ rn. is_seen (permissions_named cache rn) q) names)
unfolding permissions_for_roles is_seen
permissions_for_roles_lem cache names = (
  (add_roles-IsSynced cache ([], []) names IsSynced-nil).distinct,
  λ q. add_roles-seen cache ([], []) names q IsSynced-nil,
)

Memᴰ_of_is_seen : (ps : List Text) (p : Text) → is_seen ps p ≡ true → Memᴰ p ps
unfolding is_seen
Memᴰ_of_is_seen [] p h = cc
Memᴰ_of_is_seen (q ∷ ps) p h = elim (Bool-cases (q == p)) [
  | inl e ↦ Memᴰ.head (sym ((list_beq_iff q p).0 e))
  | inr e ↦ Memᴰ.tail (Memᴰ_of_is_seen ps p (ground arith))
]

is_seen_of_Memᴰ : {p : Text} {ps : List Text} → Memᴰ p ps → is_seen ps p ≡ true
unfolding is_seen
is_seen_of_Memᴰ {p} (Memᴰ.head {x = q} e) = ground (arith, list_beq_iff q p)
is_seen_of_Memᴰ {p} {ps = q ∷ ps} (Memᴰ.tail m) = ground (arith, is_seen_of_Memᴰ m)

-- Some role of the request holds, in the cache, a permission that covers the wanted one.
pub record IsGranted (cache : Cache) (want : Text) (roles : List String) : Type 0 where
  pub role : String
  pub carried : Memᴰ role roles
  pub permission : Text
  pub held : Memᴰ permission (permissions_named cache role)
  pub covering : Covers permission want

match_permission-nonempty :
    (ps : List Text) (want : Text) → match_permission ps want ≡ true → (length ps == 0) ≡ false
unfolding match_permission
match_permission-nonempty [] want h = cc
match_permission-nonempty (p ∷ ps) want h = ground arith

require_permission-match :
    (cache : Cache) (want : Text) (roles : List String)
    → (require_permission cache want (some roles) ≡ pass)
      ↔ (match_permission (permissions_for_roles cache roles) want ≡ true)
unfolding require_permission
require_permission-match cache want roles =
    ground (arith, match_permission-nonempty (permissions_for_roles cache roles) want)

-- `RequirePermission` lets a request through exactly when it carries a role that holds, in the
-- cache, a permission which covers the wanted one.
pub require_permission_iff :
    (cache : Cache) (want : Text) (roles : List String)
    → (require_permission cache want (some roles) ≡ pass) ↔ IsGranted cache want roles
require_permission_iff cache want roles =
    let through = require_permission-match cache want roles in
    let matched = match_permission_iff (permissions_for_roles cache roles) want in
    let seen = (permissions_for_roles_lem cache roles).1 in
    (
      λ h.
          let (g, m, c) = matched.0 (through.0 h) in
          let (rn, carried, e) =
            any_elim (holds cache g) roles (sym (seen g) ∙ is_seen_of_Memᴰ m) in
          record {
            role = rn;
            carried = carried;
            permission = g;
            held = Memᴰ_of_is_seen (permissions_named cache rn) g e;
            covering = c;
          },
      λ g. through.1 (
          matched.1 (
            g.permission,
            Memᴰ_of_is_seen _ _ (
                seen g.permission
                ∙ any_intro (holds cache g.permission) g.carried (is_seen_of_Memᴰ g.held)),
            g.covering,
          )),
    )
