-- ===== src/Ws/Router.antt =====
-- ws/server/WsRouter.hpp: the decisions on a handshake, and the handlers that make them.
use rtl.Base.{ℕ, Bool, true, false, String, Option, none, some}

pub record WsAcceptingDecision : Type 0 where
  pub status : ℕ
  pub message : String
  pub accept : Bool

abbrev pub make_accept : ℕ → String → WsAcceptingDecision
make_accept status msg = record { status = status; message = msg; accept = true }

abbrev pub reject : ℕ → String → WsAcceptingDecision
reject status msg = record { status = status; message = msg; accept = false }

-- `http::status::switching_protocols`.
abbrev pub default_accept : String → WsAcceptingDecision
default_accept msg = make_accept 101 msg

abbrev pub accept_ok : String → WsAcceptingDecision
accept_ok msg = make_accept 200 msg

abbrev pub accept_authorized : String → WsAcceptingDecision
accept_authorized msg = make_accept 202 msg

abbrev pub accept_created : String → WsAcceptingDecision
accept_created msg = make_accept 201 msg

abbrev pub accept_accepted : String → WsAcceptingDecision
accept_accepted msg = make_accept 202 msg

abbrev pub reject_bad_request : String → WsAcceptingDecision
reject_bad_request msg = reject 400 msg

abbrev pub reject_unauthorized : String → WsAcceptingDecision
reject_unauthorized msg = reject 401 msg

abbrev pub reject_forbidden : String → WsAcceptingDecision
reject_forbidden msg = reject 403 msg

abbrev pub reject_not_found : String → WsAcceptingDecision
reject_not_found msg = reject 404 msg

abbrev pub reject_service_unavailable : String → WsAcceptingDecision
reject_service_unavailable msg = reject 503 msg

-- The handlers that decide, on what they read of the session; unset they accept.
pub record WsRouter (Request : Type 0) : Type 0 where
  pub auth_handler : Option (Request → WsAcceptingDecision)
  pub accept_handler : Option (Request → WsAcceptingDecision)

module _ {Request : Type 0} where
  abbrev pub decide : Option (Request → WsAcceptingDecision) → Request → WsAcceptingDecision
  decide none request = default_accept ""
  decide (some handler) request = handler request

  unfoldable pub handle_auth : WsRouter Request → Request → WsAcceptingDecision
  handle_auth router request = decide router.auth_handler request

  unfoldable pub handle_accept : WsRouter Request → Request → WsAcceptingDecision
  handle_accept router request = decide router.accept_handler request
