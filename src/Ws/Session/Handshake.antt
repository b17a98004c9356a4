-- ===== src/Ws/Session/Handshake.antt =====
-- The handshake of ws/server/WsSession.hpp, with the decisions of ws/server/WsRouter.hpp.
use rtl.Base.{◌≡◌, ◌⊎◌, inl, inr, true, false, ◌&&◌, [], ◌∷◌, arith, if◌then◌else◌, Bool-cases}
use rtl.Ws.Router.{WsRouter, handle_auth, handle_accept}
use rtl.Ws.Session.{closing, ErrorCode, success, Session, async_accept, write_rejection, Step}
use rtl.Ws.Session.Handlers.{on_http_read}

module _ {Request : Type 0} where
  -- The read of a handshake, with the router that the session asks.
  unfoldable pub read_handshake : WsRouter Request → Request → ErrorCode → Session → Step
  unfolding on_http_read
  read_handshake router request ec s =
      on_http_read ec (handle_auth router request) (handle_accept router request) s

  -- For a session with a router whose handshake was read: if both of the router's decisions accept,
  -- the session starts to accept the peer, and does nothing else. Otherwise it only answers with
  -- the status and message of the first decision that rejects, and is closing.
  pub handshake_decides :
      (router : WsRouter Request) (request : Request) (s : Session)
      → s.has_router ≡ true
      → let auth = handle_auth router request in
        let accept = handle_accept router request in
        let refusal = if auth.accept then accept else auth in
        (((auth.accept && accept.accept) ≡ true)
          × (read_handshake router request success s ≡ (async_accept ∷ [], s)))
        ⊎ (((auth.accept && accept.accept) ≡ false)
            × (read_handshake router request success s ≡ (
              write_rejection refusal.status refusal.message ∷ [],
              record s { state = closing },
            )))
  unfolding read_handshake
  handshake_decides router request s h =
      elim (Bool-cases
        ((handle_auth router request).accept && (handle_accept router request).accept)) [
          | inl e ↦ inl (e, ground arith)
          | inr e ↦ inr (e, ground arith)
        ]
