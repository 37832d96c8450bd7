-- ===== src/Http/RateKeys.antt =====
-- The keys of the rate limits, internal/infrastructure/http/router/router.go. Each function that
-- reads the body leaves what it has read in its place.
use masterfabric_backend.Prelude.{
  String, ltb, [], ◌∷◌, ◌++◌, ◌==◌, nat_eq, list_eq, length, take, drop, if◌then◌else◌,
}
use masterfabric_backend.Prelude.Text.{Text, codes}
use masterfabric_backend.World.{Env}
use masterfabric_backend.Iam.Access.{hex}
use masterfabric_backend.Http.Request.{Request, Web}

-- `clientIP`: what stands before the first colon.
unfoldable pub client_ip : Text → Text
client_ip [] = []
client_ip (c ∷ host) = let rest = client_ip host in if c == b':' then [] else c ∷ rest

-- `io.ReadAll(io.LimitReader(r.Body, 512))`, put back as the body.
abbrev pub peeked : Request → Request
peeked r = record r { body = take 512 r.body }

-- The key of a field of the body, or of the address where the field is empty.
abbrev key_or_ip : String → Text → Request → Text
key_or_ip prefix field r =
    if field == []
    then codes prefix ++ codes "ip:" ++ client_ip r.remote_addr
    else codes prefix ++ field

module _ {env : Env} (web : Web env) where
  -- `raw` is empty where the body is, and then the field is.
  abbrev email_of : Text → Text
  email_of raw = if raw == [] then [] else web.email_field raw

  abbrev token_of : Text → Text
  token_of raw = if raw == [] then [] else web.refresh_token_field raw

  abbrev short_hash : Text → Text
  short_hash token = hex (take 8 (env.sha256 token))

  unfoldable pub login_rate_key : Request → Text × Request
  login_rate_key r = (key_or_ip "login:" (email_of (take 512 r.body)) r, peeked r)

  unfoldable pub register_rate_key : Request → Text × Request
  register_rate_key r = (key_or_ip "register:" (email_of (take 512 r.body)) r, peeked r)

  unfoldable pub refresh_rate_key : Request → Text × Request
  refresh_rate_key r =
      let token = token_of (take 512 r.body) in
      (key_or_ip "refresh:" (if token == [] then [] else short_hash token) r, peeked r)

  -- The token is what follows the seven bytes of "Bearer ".
  unfoldable pub event_rate_key : Request → Text × Request
  event_rate_key r = (
    if ltb 7 (length r.authorization)
        then codes "llm:events:" ++ short_hash (drop 7 r.authorization)
        else codes "llm:events:ip:" ++ client_ip r.remote_addr,
    r,
  )
