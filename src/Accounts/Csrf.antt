-- ===== src/Accounts/Csrf.antt =====
-- backend/internal/middleware/csrf.go; url.Parse, as the scheme and the host of a text, is a parameter.
use personal_space.Prelude.{
  Bool, true, ◌||◌, not, String, Text, codes, text_eq, Option, none, some, Result, ok, err, List,
  [], ◌∷◌, if◌then◌else◌, any, has_prefix, trim_space, is_empty, to_lower, ◌++◌,
}

unfoldable pub is_safe_method : Text → Bool
is_safe_method method =
    text_eq method (codes "GET")
    || text_eq method (codes "HEAD")
    || text_eq method (codes "OPTIONS")
    || text_eq method (codes "TRACE")

-- url.Parse: `none` is an error.
abbrev pub UrlParser : Type 0
UrlParser = Text → Option (Text × Text)

abbrev origin_of : Option (Text × Text) → Text
origin_of none = []
origin_of (some (scheme, host)) =
    if is_empty scheme || is_empty host then [] else to_lower (scheme ++ codes "://" ++ host)

unfoldable pub normalize_origin : UrlParser → Text → Text
normalize_origin parse value =
    if is_empty (trim_space value) || text_eq (trim_space value) (codes "null")
    then []
    else origin_of (parse (trim_space value))

unfoldable pub origin_from_referer : UrlParser → Text → Text
origin_from_referer parse referer =
    if is_empty (trim_space referer) then [] else origin_of (parse (trim_space referer))

abbrev added : Text → List Text → List Text
added origin allowed = if is_empty origin then allowed else origin ∷ allowed

unfoldable pub allowed_origins : UrlParser → List Text → List Text
allowed_origins parse [] = []
allowed_origins parse (raw ∷ raws) = added (normalize_origin parse raw) (allowed_origins parse raws)

-- NewCSRFMiddleware: the map is the list of its keys.
pub record CsrfMiddleware : Type 0 where
  pub disabled : Bool
  pub allowed : List Text

unfoldable pub new_csrf_middleware : UrlParser → Bool → Text → List Text → CsrfMiddleware
new_csrf_middleware parse disabled base_url extra = record {
  disabled = disabled;
  allowed = allowed_origins parse (base_url ∷ extra);
}

-- What the middleware reads of a request; the cookie is `none` where there is none.
pub record CsrfRequest : Type 0 where
  pub method : Text
  pub path : Text
  pub cookie : Option Text
  pub origin : Text
  pub referer : Text

abbrev pub without_session : Option Text → Bool
without_session none = true
without_session (some value) = is_empty (trim_space value)

abbrev pub origin_or_referer : UrlParser → CsrfRequest → Text
origin_or_referer parse r =
    if is_empty (normalize_origin parse r.origin)
    then origin_from_referer parse r.referer
    else normalize_origin parse r.origin

-- Handler: `ok` passes the request on, `err` is the detail of the answer 403.
unfoldable pub csrf_handler : UrlParser → CsrfMiddleware → CsrfRequest → Result String (Unit {0})
csrf_handler parse m r =
    if m.disabled || is_safe_method r.method || not (has_prefix r.path (codes "/api/"))
    then ok tt
    else if without_session r.cookie
    then ok tt
    else if is_empty (origin_or_referer parse r)
    then err "missing origin"
    else if any (text_eq (origin_or_referer parse r)) m.allowed
    then ok tt
    else err "origin is not allowed"
