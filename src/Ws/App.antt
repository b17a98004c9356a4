-- ===== src/Ws/App.antt =====
-- ws/server/WsApp.hpp: the endpoints of an application, and what it does with a session's handshake
-- and with its messages. A handler is called on the session and the message; what it does is its own.
mod Hosted
mod Nested
mod Registered
mod Gate
mod Examples
use text.Mathlib.Text.{◌==◌ as str_eq}
use rtl.Base.{
  ℕ, Bool, true, false, not, ◌||◌, String, Option, none, some, List, [], ◌∷◌, if◌then◌else◌,
}
use rtl.Base.Maps.{find, contains, emplace, modify}
use rtl.Middleware.{
  AuthenticationRequest, AuthenticatedPrincipal, AuthenticationFailureCode, missing_credentials,
  malformed_credentials, invalid_token, expired_token, invalid_issuer, invalid_audience, forbidden,
  temporarily_unavailable, AuthenticationFailure, AuthenticationResult, principal, failure,
  IAuthenticator,
}
use rtl.Ws.Router.{
  WsAcceptingDecision, default_accept, accept_authorized, reject, reject_unauthorized,
  reject_forbidden, reject_service_unavailable, WsRouter,
}

-- What the handlers read of a session that is being accepted.
pub record RequestContext : Type 0 where
  pub headers : List (String × String)
  pub endpoint : String
  pub target : String
  pub query_string : String
  pub remote_address : String
  pub remote_port : ℕ

-- A header's value, or the default that the field has.
abbrev pub header_or : String → Option String → String
header_or fallback none = fallback
header_or fallback (some text) = text

unfoldable pub session_context_to_authentication_request : RequestContext → AuthenticationRequest
session_context_to_authentication_request ctx = record {
  authorization_header = find ctx.headers "authorization";
  normalized_headers = ctx.headers;
  query_params = [];
  cookies = [];
  endpoint = ctx.endpoint;
  raw_target = ctx.target;
  query_string = ctx.query_string;
  remote_address = ctx.remote_address;
  remote_port = ctx.remote_port;
  host = header_or "" (find ctx.headers "host");
  origin = header_or "" (find ctx.headers "origin");
  user_agent = header_or "" (find ctx.headers "user-agent");
}

abbrev pub is_empty : String → Bool
is_empty text = str_eq text ""

abbrev pub message_or : AuthenticationFailure → String → String
message_or fail fallback = if is_empty fail.message then fallback else fail.message

abbrev pub reject_on_code : AuthenticationFailureCode → AuthenticationFailure → WsAcceptingDecision
reject_on_code forbidden fail = reject_forbidden (message_or fail "Forbidden")
reject_on_code temporarily_unavailable fail =
    reject_service_unavailable (message_or fail "Service Unavailable")
reject_on_code missing_credentials fail = reject_unauthorized (message_or fail "Unauthorized")
reject_on_code malformed_credentials fail = reject_unauthorized (message_or fail "Unauthorized")
reject_on_code invalid_token fail = reject_unauthorized (message_or fail "Unauthorized")
reject_on_code expired_token fail = reject_unauthorized (message_or fail "Unauthorized")
reject_on_code invalid_issuer fail = reject_unauthorized (message_or fail "Unauthorized")
reject_on_code invalid_audience fail = reject_unauthorized (message_or fail "Unauthorized")

unfoldable pub reject_on_auth_failure : AuthenticationFailure → WsAcceptingDecision
reject_on_auth_failure fail = reject_on_code fail.code fail

abbrev pub on_auth_result :
    AuthenticationResult → WsAcceptingDecision × Option AuthenticatedPrincipal
on_auth_result (principal p) = (accept_authorized "Authorized", some p)
on_auth_result (failure f) = (reject_on_auth_failure f, none)

pub record WsApp (Handler : Type 0) : Type 0 where
  pub middleware : Option IAuthenticator
  pub endp_hndl_map : List (String × Handler)
  pub nested_hndl_map : List (String × List (String × Handler))

-- What becomes of a message: the handler that is called with it, or the session is closed, or
-- nothing is done.
pub data Dispatch (Handler : Type 0) : Type 0 where
  calls : Handler → Dispatch Handler
  closes ignores : Dispatch Handler

module _ {Handler : Type 0} where
  unfoldable pub make_app : WsApp Handler
  make_app = record { middleware = none; endp_hndl_map = []; nested_hndl_map = [] }

  -- A handler is an `std::function`, which may be empty: `none`.
  unfoldable pub add_endpoint : WsApp Handler → String → Option Handler → WsApp Handler
  add_endpoint app endpoint none = app
  add_endpoint app endpoint (some handler) =
      if is_empty endpoint
      then app
      else if contains app.endp_hndl_map endpoint
      then app
      else record app { endp_hndl_map = emplace app.endp_hndl_map endpoint handler }

  -- The map with a submap for the endpoint.
  abbrev pub with_submap :
      List (String × List (String × Handler)) → String → List (String × List (String × Handler))
  with_submap m endpoint = if not (contains m endpoint) then emplace m endpoint [] else m

  -- `m.at(endpoint).contains(type)`, of an endpoint that is there.
  abbrev pub has_type : List (String × List (String × Handler)) → String → String → Bool
  has_type m endpoint type = elim (find m endpoint) [
    | none ↦ false
    | some types ↦ contains types type
  ]

  unfoldable pub add_message_handler :
      WsApp Handler → String → String → Option Handler → WsApp Handler
  add_message_handler app endpoint type none = app
  add_message_handler app endpoint type (some handler) =
      if is_empty endpoint
      then app
      else if is_empty type
      then app
      else let m = with_submap app.nested_hndl_map endpoint in
        if has_type m endpoint type then record app { nested_hndl_map = m } else record app {
          nested_hndl_map = modify m endpoint (λ types. emplace types type handler);
        }

  unfoldable pub setup_middleware : WsApp Handler → Option IAuthenticator → WsApp Handler
  setup_middleware app middleware = record app { middleware = middleware }

  -- The decision of the handler that `setup_accepting` installs.
  unfoldable pub setup_accepting : WsApp Handler → RequestContext → WsAcceptingDecision
  setup_accepting app ctx =
      if not (contains app.endp_hndl_map ctx.endpoint)
      then if not (contains app.nested_hndl_map ctx.endpoint)
        then reject 404 "Unknown endpoint"
        else default_accept ""
      else default_accept ""

  -- The decision of the handler that `setup_auth` installs, and the principal that it sets.
  unfoldable pub setup_auth :
      WsApp Handler → RequestContext → WsAcceptingDecision × Option AuthenticatedPrincipal
  unfolding reject_on_auth_failure
  setup_auth app ctx = elim app.middleware [
    | none ↦ (reject_unauthorized "Unauthorized", none)
    | some authenticate ↦
        on_auth_result (authenticate (session_context_to_authentication_request ctx))
  ]

  -- The handler that `setup_messaging` installs, on a session's endpoint and a message's type.
  unfoldable pub setup_messaging : WsApp Handler → String → String → Dispatch Handler
  setup_messaging app endpoint type =
      if not (is_empty type)
      then elim (find app.nested_hndl_map endpoint) [
        | none ↦ closes
        | some types ↦ elim (find types type) [ none ↦ ignores | some handler ↦ calls handler ]
      ]
      else elim (find app.endp_hndl_map endpoint) [ none ↦ closes | some handler ↦ calls handler ]

  -- The router of the application's server: ws/server/WsServer.hpp hands both decisions on.
  unfoldable pub app_router : WsApp Handler → WsRouter RequestContext
  unfolding setup_auth setup_accepting
  app_router app = record {
    auth_handler = some (λ ctx. (setup_auth app ctx).0);
    accept_handler = some (setup_accepting app);
  }

pub data Registration (Handler : Type 0) : Type 0 where
  adds_endpoint : String → Option Handler → Registration Handler
  adds_message_handler : String → String → Option Handler → Registration Handler
  sets_middleware : Option IAuthenticator → Registration Handler

module _ {Handler : Type 0} where
  unfoldable pub step : WsApp Handler → Registration Handler → WsApp Handler
  unfolding add_endpoint add_message_handler setup_middleware
  step app (adds_endpoint endpoint handler) = add_endpoint app endpoint handler
  step app (adds_message_handler endpoint type handler) =
      add_message_handler app endpoint type handler
  step app (sets_middleware middleware) = setup_middleware app middleware

  unfoldable pub run : WsApp Handler → List (Registration Handler) → WsApp Handler
  run app [] = app
  run app (r ∷ rs) = run (step app r) rs
