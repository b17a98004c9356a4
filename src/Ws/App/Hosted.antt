-- ===== src/Ws/App/Hosted.antt =====
-- A session of ws/server/WsSession.hpp in an application of ws/server/WsApp.hpp, with the principal
-- that the authenticator found for it.
use rtl.Base.{◌&&◌, Option, none, some, List, if◌then◌else◌}
use rtl.Middleware.{AuthenticatedPrincipal}
use rtl.Ws.Session.{ErrorCode, Session, Effect, is_ok}
use rtl.Ws.Session.Handshake.{read_handshake}
use rtl.Ws.App.{RequestContext, WsApp, setup_auth, app_router}

pub record HostedSession : Type 0 where
  pub session : Session
  pub auth_principal : Option AuthenticatedPrincipal

unfoldable pub set_authentication_principal : HostedSession → AuthenticatedPrincipal → HostedSession
set_authentication_principal s p = record s { auth_principal = some p }

-- The authentication handler sets a principal, or none.
abbrev pub authenticated : HostedSession → Option AuthenticatedPrincipal → HostedSession
unfolding set_authentication_principal
authenticated s none = s
authenticated s (some p) = set_authentication_principal s p

module _ {Handler : Type 0} where
  -- The read of a session's handshake completes; the router is asked only without an error.
  unfoldable pub handshake_read :
      WsApp Handler → RequestContext → ErrorCode → HostedSession → List Effect × HostedSession
  unfolding read_handshake app_router setup_auth
  handshake_read app ctx ec s =
      let (effects, session) = read_handshake (app_router app) ctx ec s.session in
      let s' = record s { session = session } in
      (
        effects,
        if is_ok ec && s.session.has_router then authenticated s' (setup_auth app ctx).1 else s',
      )
