-- ===== src/Auth/Origins/Guards.antt =====
-- The tests of origins and of forged requests change nothing (auth.py, deps.py).
use money_flow_service.Session.Guards.{
  IsGuard-then, IsGuard-pure, IsGuard-raise_if, IsGuard-if, IsGuard,
}
use money_flow_service.Prelude.{◌||◌, true, ◌&&◌, not, Bool}
use money_flow_service.Session.{◌>>◌, pure, raise_if}
use money_flow_service.Prelude.Text.{or_empty, strip, is_empty}
use money_flow_service.Auth.Origins.{
  is_safe_method, is_allowed, has_csrf_token, request_origin_or_referer, normalize_origin,
  verify_csrf_for_cookie_request, verify_allowed_origin, enforce_cookie_csrf,
}
use money_flow_service.Errors.{
  auth_csrf_origin_forbidden, auth_csrf_origin_required, auth_csrf_invalid, app_error,
}
use money_flow_service.Auth.Requests.{HttpRequest, AuthSettings}

pub verify_allowed_origin-IsGuard :
    (settings : AuthSettings) (request : HttpRequest) (allow_missing : Bool)
    → IsGuard (verify_allowed_origin settings request allow_missing)
unfolding verify_allowed_origin
verify_allowed_origin-IsGuard settings request allow_missing =
    let origin = request_origin_or_referer request in
    IsGuard-if (is_empty origin)
      (raise_if (not allow_missing) (app_error 403 auth_csrf_origin_required))
      (raise_if (not (is_allowed settings.allowed_origins origin))
        (app_error 403 auth_csrf_origin_forbidden))
      (IsGuard-raise_if (not allow_missing) (app_error 403 auth_csrf_origin_required))
      (IsGuard-raise_if (not (is_allowed settings.allowed_origins origin))
        (app_error 403 auth_csrf_origin_forbidden))

pub verify_csrf-IsGuard :
    (settings : AuthSettings) (request : HttpRequest) (enforce : Bool)
    → IsGuard (verify_csrf_for_cookie_request settings request enforce)
unfolding verify_csrf_for_cookie_request
verify_csrf-IsGuard settings request enforce =
    let token = raise_if (not (has_csrf_token request)) (app_error 403 auth_csrf_invalid) in
    let origin = verify_allowed_origin settings request true in
    IsGuard-if
      ((not (
            not (is_empty (strip (or_empty request.access_cookie)))
            || not (is_empty (strip (or_empty request.refresh_cookie))))
          && not enforce)
        || is_safe_method request.method)
      (pure tt) (origin >> token) IsGuard-pure
      (IsGuard-then origin token (verify_allowed_origin-IsGuard settings request true)
        (IsGuard-raise_if (not (has_csrf_token request)) (app_error 403 auth_csrf_invalid)))

pub enforce_cookie_csrf-IsGuard :
    (settings : AuthSettings) (request : HttpRequest)
    → IsGuard (enforce_cookie_csrf settings request)
unfolding enforce_cookie_csrf
enforce_cookie_csrf-IsGuard settings request =
    let origin = normalize_origin request.origin in
    let forbidden = not (is_empty origin) && not (is_allowed settings.allowed_origins origin) in
    let first = raise_if forbidden (app_error 403 auth_csrf_origin_forbidden) in
    let second = raise_if (not (has_csrf_token request)) (app_error 403 auth_csrf_invalid) in
    IsGuard-if (is_safe_method request.method) (pure tt) (first >> second) IsGuard-pure (
      IsGuard-then first second
        (IsGuard-raise_if forbidden (app_error 403 auth_csrf_origin_forbidden))
        (IsGuard-raise_if (not (has_csrf_token request)) (app_error 403 auth_csrf_invalid)))
