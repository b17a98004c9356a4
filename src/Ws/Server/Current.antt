-- ===== src/Ws/Server/Current.antt =====
-- The sessions of ws/server/WsServer.hpp over any interleaving: the list of weak pointers, that is
-- cleaned at some times only, against the sessions that are there.
use rtl.Base.{
  ℕ, ◌≡◌, refl, sym, ap, ◌∙◌, subst, inl, inr, Bool, true, false, not, ◌&&◌, ◌||◌, List, [], ◌∷◌,
  ◌++◌, arith, ◌==◌, Bool-cases, if◌then◌else◌,
}
use rtl.Ws.Server.{
  Server, make_server, is_running, is_empty, erase_if, is_among, locked,
  remove_invalid_sessions_unlocked, get_live_sessions, Request, close_for_shutdown,
  close_forcefully, each, broadcast, stop_active_sessions, sessions_stopped, on_wait_timer_timeout,
  Event, opens, closes, destroys, broadcasts, starts, stop_begins, stop_closes, stop_waits,
  stop_looks, times_out, stop_ends, expired, step, run,
}
use rtl.Ws.Server.Filter.{erase_if-append, erase_if-erase_if}

-- The sessions that opened and were neither closed nor destroyed since, in their order.
unfoldable pub without : ℕ → List ℕ → List ℕ
without s xs = erase_if (λ x. x == s) xs

unfoldable pub after_event : List ℕ → Event → List ℕ
after_event now (opens s) = now ++ s ∷ []
after_event now (closes s) = without s now
after_event now (destroys s) = without s now
after_event now other = now

unfoldable pub current_from : List ℕ → List Event → List ℕ
current_from now [] = now
current_from now (e ∷ es) = current_from (after_event now e) es

-- A session that was destroyed does not open.
abbrev pub may_happen : List ℕ → Event → Bool
may_happen gone (opens s) = not (is_among s gone)
may_happen gone other = true

abbrev pub gone_after : List ℕ → Event → List ℕ
gone_after gone (destroys s) = s ∷ gone
gone_after gone other = gone

unfoldable pub possible : List ℕ → List Event → Bool
possible gone [] = true
possible gone (e ∷ es) = may_happen gone e && possible (gone_after gone e) es

cleaned : (m : Server) → locked (remove_invalid_sessions_unlocked m) ≡ locked m
unfolding locked remove_invalid_sessions_unlocked
cleaned m = erase_if-erase_if (expired m) (expired m) (expired m) (λ x. ground arith) m.sessions

step-destroyed : (m : Server) (e : Event) → (step m e).1.destroyed ≡ gone_after m.destroyed e
unfolding step get_live_sessions remove_invalid_sessions_unlocked
step-destroyed m (opens s) = refl
step-destroyed m (closes s) = refl
step-destroyed m (destroys s) = refl
step-destroyed m (broadcasts r) = ground arith
step-destroyed m starts = refl
step-destroyed m stop_begins = ground arith
step-destroyed m stop_closes = refl
step-destroyed m stop_waits = refl
step-destroyed m stop_looks = refl
step-destroyed m times_out = refl
step-destroyed m stop_ends = refl

kept : (p : ℕ → Bool) (s : ℕ) → p s ≡ false → erase_if p (s ∷ []) ≡ s ∷ []
unfolding erase_if
kept p s h = ground arith

step-locked :
    (m : Server) (e : Event)
    → may_happen m.destroyed e ≡ true
    → locked (step m e).1 ≡ after_event (locked m) e
unfolding step locked after_event without get_live_sessions remove_invalid_sessions_unlocked
step-locked m (opens s) h =
    erase_if-append (expired m) m.sessions (s ∷ [])
    ∙ ap (λ rest. locked m ++ rest) (kept (expired m) s (ground arith))
step-locked m (closes s) h =
    erase_if-erase_if (expired m) (λ x. expired m x || x == s) (λ x. expired m x || x == s)
      (λ x. ground arith) m.sessions
    ∙ sym (
        erase_if-erase_if (λ x. x == s) (expired m) (λ x. expired m x || x == s) (λ x. refl)
          m.sessions)
step-locked m (destroys s) h = sym (
    erase_if-erase_if (λ x. x == s) (expired m) (λ x. is_among x (s ∷ m.destroyed))
      (λ x. ground arith) m.sessions)
step-locked m (broadcasts r) h = elim (Bool-cases (is_running m.state)) [
  | inl e ↦ ground (arith, cleaned m)
  | inr e ↦ ground arith
]
step-locked m starts h = refl
step-locked m stop_begins h = ground arith
step-locked m stop_closes h = cleaned m
step-locked m stop_waits h = refl
step-locked m stop_looks h = cleaned m
step-locked m times_out h = cleaned (record m { stop_wait = true })
step-locked m stop_ends h = refl

run-locked :
    (m : Server) (es : List Event)
    → possible m.destroyed es ≡ true
    → locked (run m es) ≡ current_from (locked m) es
unfolding run possible current_from
run-locked m [] h = refl
run-locked m (e ∷ es) h =
    run-locked (step m e).1 es
      (subst (λ gone. possible gone es ≡ true) (sym (step-destroyed m e)) (ground arith))
    ∙ ap (λ now. current_from now es) (step-locked m e (ground arith))

abbrev pub current : List Event → List ℕ
current es = current_from [] es

broadcast-locked :
    (r : Request) (m : Server)
    → (broadcast r m).0 ≡ (if is_running m.state then each r (locked m) else [])
unfolding broadcast
broadcast-locked r m =
    let all = ap (each r) (cleaned m) in
    elim (Bool-cases (is_running m.state)) [ inl e ↦ ground arith | inr e ↦ ground arith ]

-- Whether the timer has fired since a wait of a stop was started last, if one was.
unfoldable pub fired_after : Bool → Event → Bool
fired_after fired times_out = true
fired_after fired stop_waits = false
fired_after fired other = fired

unfoldable pub fired_from : Bool → List Event → Bool
fired_from fired [] = fired
fired_from fired (e ∷ es) = fired_from (fired_after fired e) es

abbrev pub has_fired : List Event → Bool
has_fired es = fired_from false es

step-stop_wait : (m : Server) (e : Event) → (step m e).1.stop_wait ≡ fired_after m.stop_wait e
unfolding step fired_after get_live_sessions remove_invalid_sessions_unlocked
step-stop_wait m (opens s) = refl
step-stop_wait m (closes s) = refl
step-stop_wait m (destroys s) = refl
step-stop_wait m (broadcasts r) = ground arith
step-stop_wait m starts = refl
step-stop_wait m stop_begins = ground arith
step-stop_wait m stop_closes = refl
step-stop_wait m stop_waits = refl
step-stop_wait m stop_looks = refl
step-stop_wait m times_out = refl
step-stop_wait m stop_ends = refl

run-stop_wait : (m : Server) (es : List Event) → (run m es).stop_wait ≡ fired_from m.stop_wait es
unfolding run fired_from
run-stop_wait m [] = refl
run-stop_wait m (e ∷ es) =
    run-stop_wait (step m e).1 es ∙ ap (λ fired. fired_from fired es) (step-stop_wait m e)

-- After any interleaving in which no session opens after it was destroyed, the server deals with
-- exactly the sessions that opened and were neither closed nor destroyed since, in the order in which
-- they opened: they are those that a broadcast of a running server reaches, that a stop asks to
-- close, and that its timer closes by force; and the wait of a stop is over exactly if there are none
-- or the timer has fired since a wait was started last.
pub run-current :
    (es : List Event)
    → possible [] es ≡ true
    → let m = run make_server es in
      let now = current es in
      ((get_live_sessions m).0 ≡ now)
      × ((r : Request) → (broadcast r m).0 ≡ (if is_running m.state then each r now else []))
      × ((stop_active_sessions m).0 ≡ each close_for_shutdown now)
      × ((sessions_stopped m).0 ≡ (is_empty now || has_fired es))
      × ((on_wait_timer_timeout m).0 ≡ each close_forcefully now)
unfolding stop_active_sessions sessions_stopped on_wait_timer_timeout get_live_sessions make_server
run-current es h =
    let m = run make_server es in
    let live = run-locked make_server es h in
    (
      cleaned m ∙ live,
      λ r. broadcast-locked r m ∙ ap (λ now. if is_running m.state then each r now else []) live,
      ap (each close_for_shutdown) (cleaned m ∙ live),
      ap (λ now. is_empty now || m.stop_wait) live
          ∙ ap (λ fired. is_empty (current es) || fired) (run-stop_wait make_server es),
      ap (each close_forcefully) (cleaned m ∙ live),
    )
