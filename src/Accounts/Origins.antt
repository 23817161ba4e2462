-- ===== src/Accounts/Origins.antt =====
-- Which requests the middleware of backend/internal/middleware/csrf.go passes on.
use personal_space.Prelude.{
  ◌≡◌, ◌↔◌, ◌⊎◌, inl, inr, true, false, Text, codes, text_eq, text_eq_iff, ok, List, [], ◌∷◌, any,
  has_prefix, is_empty, arith,
}
use personal_space.Accounts.Csrf.{
  UrlParser, CsrfRequest, is_safe_method, normalize_origin, allowed_origins, new_csrf_middleware,
  without_session, origin_or_referer, csrf_handler,
}

-- An origin that one of the configured URLs names.
abbrev pub IsNamed : UrlParser → Text → List Text → Type 0
IsNamed parse origin [] = ⊥
IsNamed parse origin (raw ∷ raws) =
    ((is_empty (normalize_origin parse raw) ≡ false) × (origin ≡ normalize_origin parse raw))
    ⊎ IsNamed parse origin raws

allowed-IsNamed :
    (parse : UrlParser) (origin : Text) (raws : List Text)
    → any (text_eq origin) (allowed_origins parse raws) ≡ true
    → IsNamed parse origin raws
unfolding allowed_origins
allowed-IsNamed parse origin [] h = cc
allowed-IsNamed parse origin (raw ∷ raws) h =
    ground
      (arith, h, allowed-IsNamed parse origin raws, text_eq_iff origin (normalize_origin parse raw))

IsNamed-allowed :
    (parse : UrlParser) (origin : Text) (raws : List Text)
    → IsNamed parse origin raws
    → any (text_eq origin) (allowed_origins parse raws) ≡ true
unfolding allowed_origins
IsNamed-allowed parse origin [] h = absurd h
IsNamed-allowed parse origin (raw ∷ raws) h =
    ground
      (arith, h, IsNamed-allowed parse origin raws, text_eq_iff origin (normalize_origin parse raw))

IsNamed-full :
    (parse : UrlParser) (origin : Text) (raws : List Text)
    → IsNamed parse origin raws
    → is_empty origin ≡ false
IsNamed-full parse origin [] h = absurd h
IsNamed-full parse origin (raw ∷ raws) (inl (full, e)) = rw e full
IsNamed-full parse origin (raw ∷ raws) (inr h) = IsNamed-full parse origin raws h

-- A request to the API that changes state and carries a session is passed on exactly where its Origin,
-- or else its Referer, is an origin that the base URL or one of the extra URLs names.
pub csrf_handler-IsNamed :
    (parse : UrlParser) (base_url : Text) (extra : List Text) (r : CsrfRequest)
    → is_safe_method r.method ≡ false
    → has_prefix r.path (codes "/api/") ≡ true
    → without_session r.cookie ≡ false
    → (csrf_handler parse (new_csrf_middleware parse false base_url extra) r ≡ ok tt)
      ↔ IsNamed parse (origin_or_referer parse r) (base_url ∷ extra)
unfolding csrf_handler new_csrf_middleware
csrf_handler-IsNamed parse base_url extra r unsafe api cookie =
    let origin = origin_or_referer parse r in
    let raws = base_url ∷ extra in
    (
      λ h. allowed-IsNamed parse origin raws (ground (arith, h, unsafe, api, cookie)),
      λ named.
          let full = IsNamed-full parse origin raws named in
          let found = IsNamed-allowed parse origin raws named in
          ground (arith, unsafe, api, cookie, full, found),
    )
