-- ===== src/Auth/Origins.antt =====
-- auth.py and deps.py: the origin that a request names, and the token against forged requests.
pub mod Guards
use money_flow_service.Auth.Requests.{HttpRequest, AuthSettings}
use money_flow_service.Errors.{
  auth_csrf_origin_required, auth_csrf_origin_forbidden, auth_csrf_invalid, app_error,
}
use money_flow_service.Session.{◌>>◌, raise_if, pure, Handler}
use money_flow_service.Prelude.{
  ◌&&◌, ◌++◌, nat_eq, ◌||◌, false, true, [], some, none, leb, ◌==◌, ◌∷◌, Option, Bool, not,
  if◌then◌else◌, List, ℕ,
}
use money_flow_service.Prelude.Text.{text, text_eq, or_empty, is_empty, upper, strip, lower, Text}
use money_flow_service.Prelude.Tables.{select, exists}
use mathlib.Core.Option

-- urllib.parse.urlsplit: what it drops before it splits. (It also refuses brackets that do not match,
-- which is not modelled.)
abbrev is_dropped : ℕ → Bool
is_dropped c = c == 9 || c == 10 || c == 13

unfoldable pub drop_controls : Text → Text
drop_controls [] = []
drop_controls (c ∷ cs) = if leb c 32 then drop_controls cs else c ∷ cs

unfoldable pub clean_url : Text → Text
unfolding select drop_controls
clean_url url = select (λ c. not (is_dropped c)) (drop_controls url)

abbrev pub is_letter : ℕ → Bool
is_letter c = (leb b'A' c && leb c b'Z') || (leb b'a' c && leb c b'z')

abbrev is_scheme_char : ℕ → Bool
is_scheme_char c = is_letter c || (leb b'0' c && leb c b'9') || c == b'+' || c == b'-' || c == b'.'

-- The text before the first colon, and the text after it.
unfoldable pub split_colon : Text → Option (Text × Text)
split_colon [] = none
split_colon (c ∷ cs) =
    if c == b':'
    then some ([], cs)
    else Option.map (λ (p : Text × Text). (c ∷ p.0, p.1)) (split_colon cs)

unfoldable pub all_of : (ℕ → Bool) → Text → Bool
all_of p [] = true
all_of p (c ∷ cs) = p c && all_of p cs

abbrev is_scheme : Text → Bool
is_scheme [] = false
is_scheme (c ∷ cs) = is_letter c && all_of is_scheme_char (c ∷ cs)

abbrev scheme_or : Text → Option (Text × Text) → Text × Text
scheme_or url none = ([], url)
scheme_or url (some (scheme, rest)) = if is_scheme scheme then (lower scheme, rest) else ([], url)

abbrev ends_netloc : ℕ → Bool
ends_netloc c = c == b'/' || c == b'?' || c == b'#'

unfoldable pub until_path : Text → Text
until_path [] = []
until_path (c ∷ cs) = if ends_netloc c then [] else c ∷ until_path cs

abbrev netloc_of : Text → Text
netloc_of [] = []
netloc_of (c ∷ []) = []
netloc_of (c ∷ d ∷ rest) = if c == b'/' && d == b'/' then until_path rest else []

-- Scheme and netloc
unfoldable pub urlparse : Text → Text × Text
unfolding clean_url split_colon all_of until_path lower
urlparse text =
    let (scheme, rest) = scheme_or (clean_url text) (split_colon (clean_url text)) in
    (scheme, netloc_of rest)

abbrev join_origin : Text × Text → Text
join_origin (scheme, netloc) =
    if is_empty scheme || is_empty netloc then [] else lower scheme ++ text "://" ++ lower netloc

-- `_normalize_origin`
unfoldable pub normalize_origin : Option Text → Text
unfolding urlparse strip lower
normalize_origin value =
    if is_empty (strip (or_empty value))
    then []
    else join_origin (urlparse (strip (or_empty value)))

abbrev pub is_allowed : List Text → Text → Bool
is_allowed allowed_origins origin =
    exists (λ item. normalize_origin (some item) == origin) allowed_origins

-- `_request_origin_or_referer`
abbrev pub request_origin_or_referer : HttpRequest → Text
request_origin_or_referer request =
    if is_empty (normalize_origin request.origin)
    then normalize_origin request.referer
    else normalize_origin request.origin

-- `_verify_allowed_origin`
unfoldable pub verify_allowed_origin :
    AuthSettings → HttpRequest → (allow_missing : Bool) → Handler Unit
unfolding normalize_origin exists
verify_allowed_origin settings request allow_missing =
    let origin = request_origin_or_referer request in
    if is_empty origin
    then raise_if (not allow_missing) (app_error 403 auth_csrf_origin_required)
    else raise_if (not (is_allowed settings.allowed_origins origin))
        (app_error 403 auth_csrf_origin_forbidden)

abbrev pub is_safe_method : Text → Bool
is_safe_method method =
    upper method == text "GET" || upper method == text "HEAD" || upper method == text "OPTIONS"

-- The cookie and the header hold the same token, which is not blank.
abbrev pub has_csrf_token : HttpRequest → Bool
has_csrf_token request =
    let cookie = strip (or_empty request.csrf_cookie) in
    let header = strip (or_empty request.csrf_header) in
    not (is_empty cookie) && not (is_empty header) && cookie == header

-- `_verify_csrf_for_cookie_request` of auth.py
unfoldable pub verify_csrf_for_cookie_request :
    AuthSettings → HttpRequest → (enforce_for_cookie_path : Bool) → Handler Unit
unfolding verify_allowed_origin strip upper
verify_csrf_for_cookie_request settings request enforce =
    let has_cookie_auth =
      not (is_empty (strip (or_empty request.access_cookie)))
      || not (is_empty (strip (or_empty request.refresh_cookie))) in
    if (not has_cookie_auth && not enforce) || is_safe_method request.method
    then pure tt
    else (verify_allowed_origin settings request true)
      >> raise_if (not (has_csrf_token request)) (app_error 403 auth_csrf_invalid)

-- `_enforce_cookie_csrf` of deps.py, which does not look at the referer.
unfoldable pub enforce_cookie_csrf : AuthSettings → HttpRequest → Handler Unit
unfolding normalize_origin exists strip upper
enforce_cookie_csrf settings request =
    let origin = normalize_origin request.origin in
    if is_safe_method request.method
    then pure tt
    else (raise_if (not (is_empty origin) && not (is_allowed settings.allowed_origins origin))
        (app_error 403 auth_csrf_origin_forbidden))
      >> raise_if (not (has_csrf_token request)) (app_error 403 auth_csrf_invalid)
