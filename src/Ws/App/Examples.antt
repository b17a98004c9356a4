-- ===== src/Ws/App/Examples.antt =====
-- An application on concrete inputs.
use rtl.Base.{ℕ, ◌≡◌, refl, true, false, String, none, some, List, [], ◌∷◌}
use rtl.Base.Maps.{find, contains, emplace, modify}
use rtl.Middleware.{AuthenticatedPrincipal, missing_credentials, principal, failure, IAuthenticator}
use rtl.Ws.Router.{handle_auth}
use rtl.Ws.Session.{closing, success, WsConfig, make_session, async_accept, write_rejection}
use rtl.Ws.Session.Handshake.{read_handshake}
use rtl.Ws.App.{
  RequestContext, session_context_to_authentication_request, make_app, app_router, calls, closes,
  ignores, setup_messaging, Registration, adds_endpoint, adds_message_handler, sets_middleware, run,
  step, add_endpoint, add_message_handler,
}
use rtl.Ws.App.Registered.{any_for, first_for, setup_messaging-run}
use rtl.Ws.App.Gate.{set_last, handshake_admits}
use rtl.Ws.App.Hosted.{HostedSession, handshake_read}

-- Whoever has credentials is let in.
abbrev authenticator : IAuthenticator
authenticator request = elim request.authorization_header [
  | none ↦ failure record { code = missing_credentials; message = ""; retryable = false }
  | some credentials ↦ principal record {
    user_id = credentials;
    auth_scheme = "";
    subject = "";
    issuer = "";
    roles = [];
    scopes = [];
    expires_at = none;
  }
]

abbrev pings : List (Registration ℕ)
pings =
    adds_message_handler "/chat" "ping" (some 1)
    ∷ adds_message_handler "/chat" "ping" (some 2)
    ∷ adds_endpoint "/chat" none
    ∷ adds_endpoint "/log" (some 3)
    ∷ []

setup_messaging-run_example : setup_messaging (run make_app pings) "/chat" "ping" ≡ calls 1
unfolding first_for
setup_messaging-run_example = setup_messaging-run pings "/chat" "ping"

unknown_type_test : setup_messaging (run make_app pings) "/chat" "pong" ≡ ignores
unfolding setup_messaging run step make_app add_endpoint add_message_handler find contains emplace
    modify
unknown_type_test = refl

no_type_test : setup_messaging (run make_app pings) "/chat" "" ≡ closes
unfolding setup_messaging run step make_app add_endpoint add_message_handler find contains emplace
    modify
no_type_test = refl

abbrev knock : String → List (String × String) → RequestContext
knock endpoint headers = record {
  headers = headers;
  endpoint = endpoint;
  target = endpoint;
  query_string = "";
  remote_address = "127.0.0.1";
  remote_port = 4000;
}

abbrev config : WsConfig
config = record {
  idle_timeout = 30;
  ping_interval = 10;
  max_queued_messages = 4;
  max_queued_bytes = 100;
}

abbrev guarded : List (Registration ℕ)
guarded = sets_middleware (some authenticator) ∷ pings

abbrev visitor : RequestContext
visitor = knock "/log" (("authorization", "me") ∷ [])

abbrev me : AuthenticatedPrincipal
me = record {
  user_id = "me";
  auth_scheme = "";
  subject = "";
  issuer = "";
  roles = [];
  scopes = [];
  expires_at = none;
}

abbrev unknown_peer : HostedSession
unknown_peer = record { session = make_session config true; auth_principal = none }

found : set_last none guarded ≡ some authenticator
unfolding set_last
found = refl

handshake_admits_example :
    handshake_read (run make_app guarded) visitor success unknown_peer
    ≡ (async_accept ∷ [], record unknown_peer { auth_principal = some me })
unfolding any_for session_context_to_authentication_request find
handshake_admits_example = handshake_admits guarded authenticator visitor unknown_peer refl found

-- With no authenticator an endpoint that is unknown is refused with 401.
no_middleware_test :
    read_handshake
      (app_router (run make_app pings))
      (knock "/missing" [])
      success
      (make_session config true)
    ≡ (
      write_rejection 401 "Unauthorized" ∷ [],
      record (make_session config true) { state = closing },
    )
unfolding read_handshake app_router run step make_app add_endpoint add_message_handler find contains
    emplace modify handle_auth
no_middleware_test = refl
