-- ===== src/Tests/Http.antt =====
-- The theorems on pagination, origins and the authorization header, applied to concrete data.
use masterfabric_backend.Prelude.{
  ℕ, ◌*◌, ◌≤◌, ◌≡◌, refl, ◌≢◌, ◌↔◌, Bool, true, ◌&&◌, String, Option, none, some, [], ◌∷◌, leb,
  ◌==◌, string_eq, nat_eq, list_eq, list_beq, if◌then◌else◌, arith,
}
use masterfabric_backend.Prelude.Text.{Text, codes}
use masterfabric_backend.Http.Pagination.{
  max_page, parse, offset, atoi_safe, value_from, all_digits, atoi_safe-value_from, parse_bounds,
}
use masterfabric_backend.Http.Cors.{
  Grant, cors, origin_allowed, allow_all, has_star, credentials_named,
}
use masterfabric_backend.Http.RequestId.{request_id, IsClean, request_id-IsClean}
use masterfabric_backend.Http.Authentication.{Answer, authenticate, IsBearer, authenticate_iff}

atoi_safe-value_from_example : atoi_safe (codes "120") ≡ (
    if all_digits (codes "120") && leb (value_from 0 (codes "120")) (max_page * 100)
    then value_from 0 (codes "120")
    else 0)
atoi_safe-value_from_example = atoi_safe-value_from (codes "120")

parse_bounds_example :
    (1 ≤ (parse (codes "9999999") (codes "500") 20).page)
    × ((parse (codes "9999999") (codes "500") 20).page ≤ max_page)
    × (1 ≤ (parse (codes "9999999") (codes "500") 20).limit)
    × ((parse (codes "9999999") (codes "500") 20).limit ≤ 100)
    × (offset (parse (codes "9999999") (codes "500") 20) ≤ max_page * 100)
parse_bounds_example = parse_bounds (codes "9999999") (codes "500") 20 (omega arith) (omega arith)

-- No folding at all, which is enough for texts that have no letters to fold.
abbrev exactly : String → String → Bool
exactly a b = a == b

abbrev site : Grant
site = record { allow_origin = "https://x.io"; vary = true; credentials = true }

granted : (cors exactly ("https://x.io" ∷ []) "https://x.io" "GET").grant ≡ some site
unfolding cors origin_allowed allow_all has_star
granted = refl

credentials_named_example :
    (site.allow_origin ≡ "https://x.io")
    × (origin_allowed exactly "https://x.io" ("https://x.io" ∷ []) ≡ true)
    × (site.allow_origin ≢ "*")
credentials_named_example =
    credentials_named exactly ("https://x.io" ∷ []) "https://x.io" "GET" site (λ a e. e) granted
      refl

abbrev verified : Text → Option ℕ
verified token = if list_beq token (codes "abc") then some 1 else none

authenticate_iff_example :
    (authenticate list_beq verified (codes "bearer abc") ≡ Answer.authenticated 1)
    ↔ IsBearer list_beq verified (codes "bearer abc") 1
authenticate_iff_example = authenticate_iff list_beq verified (codes "bearer abc") 1

abbrev fresh : Text
fresh = codes "f0"

fresh-IsClean : IsClean fresh
fresh-IsClean = record {
  nonempty = λ h. cc h;
  short = omega arith;
  printable = ((omega arith, omega arith), ((omega arith, omega arith), tt));
}

request_id-IsClean_example :
    IsClean (request_id fresh (codes "a b"))
    × (IsClean (codes "a b") → request_id fresh (codes "a b") ≡ codes "a b")
request_id-IsClean_example = request_id-IsClean fresh (codes "a b") fresh-IsClean
