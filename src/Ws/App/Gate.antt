-- ===== src/Ws/App/Gate.antt =====
-- The handshake of a session of ws/server/WsSession.hpp in an application of ws/server/WsApp.hpp that
-- has an authenticator.
use rtl.Base.{
  ℕ, String, ◌≡◌, true, false, Bool, Option, none, some, List, [], ◌∷◌, arith, if◌then◌else◌, refl,
  ap, ◌∙◌,
}
use rtl.Middleware.{
  AuthenticatedPrincipal, AuthenticationFailureCode, missing_credentials, malformed_credentials,
  invalid_token, expired_token, invalid_issuer, invalid_audience, forbidden,
  temporarily_unavailable, AuthenticationFailure, AuthenticationResult, principal, failure,
  IAuthenticator,
}
use rtl.Ws.Router.{WsAcceptingDecision, handle_auth, handle_accept, reject, reject_unauthorized}
use rtl.Ws.Session.{closing, success, Effect, async_accept, write_rejection}
use rtl.Ws.Session.Handlers.{on_http_read, validate_handshake_request}
use rtl.Ws.Session.Handshake.{read_handshake}
use rtl.Ws.App.{
  is_empty, RequestContext, setup_accepting, session_context_to_authentication_request,
  reject_on_code, reject_on_auth_failure, on_auth_result, WsApp, make_app, setup_auth, app_router,
  add_endpoint, add_message_handler, setup_middleware, Registration, adds_endpoint,
  adds_message_handler, sets_middleware, step, run,
}
use rtl.Ws.App.Hosted.{HostedSession, set_authentication_principal, authenticated, handshake_read}
use rtl.Ws.App.Registered.{names_endpoint, any_for, setup_accepting-run}

-- The status that a failure is answered with, and the message where it has none.
abbrev pub status_of : AuthenticationFailureCode → ℕ × String
status_of missing_credentials = (401, "Unauthorized")
status_of malformed_credentials = (401, "Unauthorized")
status_of invalid_token = (401, "Unauthorized")
status_of expired_token = (401, "Unauthorized")
status_of invalid_issuer = (401, "Unauthorized")
status_of invalid_audience = (401, "Unauthorized")
status_of forbidden = (403, "Forbidden")
status_of temporarily_unavailable = (503, "Service Unavailable")

abbrev pub answer_to : AuthenticationFailure → Effect
answer_to fail =
    let (status, text) = status_of fail.code in
    write_rejection status (if is_empty fail.message then text else fail.message)

reject_on_code-status :
    (code : AuthenticationFailureCode) (fail : AuthenticationFailure)
    → let (status, text) = status_of code in
      reject_on_code code fail
      ≡ reject status (if is_empty fail.message then text else fail.message)
reject_on_code-status missing_credentials fail = refl
reject_on_code-status malformed_credentials fail = refl
reject_on_code-status invalid_token fail = refl
reject_on_code-status expired_token fail = refl
reject_on_code-status invalid_issuer fail = refl
reject_on_code-status invalid_audience fail = refl
reject_on_code-status forbidden fail = refl
reject_on_code-status temporarily_unavailable fail = refl

-- What becomes of a session whose request is answered so, where its endpoint is one of the
-- application's or not.
abbrev pub admission : AuthenticationResult → Bool → HostedSession → List Effect × HostedSession
admission (principal p) true s = (async_accept ∷ [], record s { auth_principal = some p })
admission (principal p) false s = (
  write_rejection 404 "Unknown endpoint" ∷ [],
  record { session = record s.session { state = closing }; auth_principal = some p },
)
admission (failure fail) known s =
    (answer_to fail ∷ [], record s { session = record s.session { state = closing } })

-- The read of a handshake, on the two decisions and the principal that is set.
abbrev read_by :
    WsAcceptingDecision × Option AuthenticatedPrincipal
    → WsAcceptingDecision
    → HostedSession
    → List Effect × HostedSession
unfolding on_http_read
read_by auth accept s =
    let (effects, session) = on_http_read success auth.0 accept s.session in
    let s' = record s { session = session } in
    (effects, if s.session.has_router then authenticated s' auth.1 else s')

read_by-answer :
    (answer : AuthenticationResult) (accept : WsAcceptingDecision) (known : Bool)
    (s : HostedSession)
    → s.session.has_router ≡ true
    → accept.accept ≡ known
    → (accept.accept ≡ false → accept ≡ reject 404 "Unknown endpoint")
    → read_by (on_auth_result answer) accept s ≡ admission answer known s
unfolding on_http_read validate_handshake_request reject_on_auth_failure
    set_authentication_principal
read_by-answer (principal p) accept true s h a refuses = ground arith
read_by-answer (principal p) accept false s h a refuses = let r = refuses a in ground arith
read_by-answer (failure fail) accept known s h a refuses =
    let r = reject_on_code-status fail.code fail in ground arith

module _ {Handler : Type 0} where
  abbrev pub named : List (Registration Handler) → RequestContext → Bool
  named rs ctx = any_for (λ r. names_endpoint r ctx.endpoint) rs

  -- The authenticator that was set last.
  unfoldable pub set_last :
      Option IAuthenticator → List (Registration Handler) → Option IAuthenticator
  set_last held [] = held
  set_last held (sets_middleware middleware ∷ rs) = set_last middleware rs
  set_last held (adds_endpoint endpoint handler ∷ rs) = set_last held rs
  set_last held (adds_message_handler endpoint type handler ∷ rs) = set_last held rs

  step-middleware :
      (app : WsApp Handler) (r : Registration Handler)
      → (step app r).middleware ≡ set_last app.middleware (r ∷ [])
  unfolding step set_last add_endpoint add_message_handler setup_middleware
  step-middleware app (adds_endpoint endpoint none) = refl
  step-middleware app (adds_endpoint endpoint (some handler)) = ground arith
  step-middleware app (adds_message_handler endpoint type none) = refl
  step-middleware app (adds_message_handler endpoint type (some handler)) = ground arith
  step-middleware app (sets_middleware middleware) = refl

  run-middleware :
      (app : WsApp Handler) (rs : List (Registration Handler))
      → (run app rs).middleware ≡ set_last app.middleware rs
  unfolding run set_last step
  run-middleware app [] = refl
  run-middleware app (sets_middleware m ∷ rs) =
      run-middleware (step app (sets_middleware m)) rs
      ∙ ap (λ held. set_last held rs) (step-middleware app (sets_middleware m))
  run-middleware app (adds_endpoint e h ∷ rs) =
      run-middleware (step app (adds_endpoint e h)) rs
      ∙ ap (λ held. set_last held rs) (step-middleware app (adds_endpoint e h))
  run-middleware app (adds_message_handler e t h ∷ rs) =
      run-middleware (step app (adds_message_handler e t h)) rs
      ∙ ap (λ held. set_last held rs) (step-middleware app (adds_message_handler e t h))

  setup_auth-set :
      (app : WsApp Handler) (ctx : RequestContext) (authenticate : IAuthenticator)
      → app.middleware ≡ some authenticate
      → setup_auth app ctx
        ≡ on_auth_result (authenticate (session_context_to_authentication_request ctx))
  unfolding setup_auth
  setup_auth-set app ctx authenticate is_set =
      ap
        (λ m. elim m [
          | none ↦ (reject_unauthorized "Unauthorized", none)
          | some a ↦ on_auth_result (a (session_context_to_authentication_request ctx))
        ])
        is_set

  setup_accepting-refuses :
      (app : WsApp Handler) (ctx : RequestContext)
      → (setup_accepting app ctx).accept ≡ false
      → setup_accepting app ctx ≡ reject 404 "Unknown endpoint"
  unfolding setup_accepting
  setup_accepting-refuses app ctx h = ground arith

  handshake_read-by :
      (app : WsApp Handler) (ctx : RequestContext) (s : HostedSession)
      → handshake_read app ctx success s ≡ read_by (setup_auth app ctx) (setup_accepting app ctx) s
  unfolding handshake_read read_handshake app_router handle_auth handle_accept
  handshake_read-by app ctx s = refl

  -- Any registrations with an authenticator, the one that was set last, and a session with a router
  -- whose handshake is read without an error. If the authenticator answers the session's request
  -- with a principal, the session holds it; if some registration is one for its endpoint, it starts
  -- to accept its peer, and otherwise it answers with 404 and is closing. If the authenticator
  -- answers with a failure, the session holds what it held, answers with the status of the
  -- failure's code and with its message or, where that is empty, the code's, and is closing.
  pub handshake_admits :
      (rs : List (Registration Handler)) (authenticate : IAuthenticator) (ctx : RequestContext)
      (s : HostedSession)
      → s.session.has_router ≡ true
      → set_last none rs ≡ some authenticate
      → handshake_read (run make_app rs) ctx success s
        ≡ admission (authenticate (session_context_to_authentication_request ctx)) (named rs ctx) s
  unfolding make_app
  handshake_admits rs authenticate ctx s h last =
      let app = run make_app rs in
      handshake_read-by app ctx s
      ∙ ap (λ auth. read_by auth (setup_accepting app ctx) s)
          (setup_auth-set app ctx authenticate (run-middleware make_app rs ∙ last))
      ∙ read_by-answer _ (setup_accepting app ctx) _ s h (setup_accepting-run rs ctx)
          (setup_accepting-refuses app ctx)
