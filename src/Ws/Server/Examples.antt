-- ===== src/Ws/Server/Examples.antt =====
-- A server on concrete inputs.
use rtl.Base.{◌≡◌, refl, false, List, [], ◌∷◌, if◌then◌else◌}
use rtl.Ws.Server.{
  make_server, is_running, get_live_sessions, Request, send_text, close_for_shutdown,
  close_forcefully, each, broadcast, stop_active_sessions, sessions_stopped, on_wait_timer_timeout,
  Event, opens, closes, destroys, broadcasts, starts, stop_begins, stop_closes, stop_waits, step,
  run, erase_if, is_among,
}
use rtl.Ws.Server.Current.{
  current_from, fired_after, fired_from, after_event, without, possible, run-current,
}

-- The third session is there when the first has closed and the second is gone.
abbrev visits : List Event
visits =
    starts ∷ opens 1 ∷ opens 2 ∷ opens 3 ∷ destroys 2 ∷ broadcasts (send_text []) ∷ closes 1 ∷ []

run-current_example :
    let m = run make_server visits in
    ((get_live_sessions m).0 ≡ 3 ∷ [])
    × ((r : Request) → (broadcast r m).0 ≡ (if is_running m.state then each r (3 ∷ []) else []))
    × ((stop_active_sessions m).0 ≡ each close_for_shutdown (3 ∷ []))
    × ((sessions_stopped m).0 ≡ false)
    × ((on_wait_timer_timeout m).0 ≡ each close_forcefully (3 ∷ []))
unfolding current_from fired_after fired_from after_event without erase_if possible is_among
run-current_example = run-current visits refl

-- A session that opens after `stop` asked the others to close is not asked.
late_session_test :
    let m = run make_server (starts ∷ stop_begins ∷ stop_closes ∷ opens 1 ∷ stop_waits ∷ []) in
    (sessions_stopped m).0 ≡ false
unfolding run step make_server sessions_stopped
late_session_test = refl
