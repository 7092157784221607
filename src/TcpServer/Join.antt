-- ===== src/TcpServer/Join.antt =====
-- cTCPServer_V2.h: a client's thread comes to its end once its socket is closed.
use thread_component.Prelude.{
  ℕ, ◌-◌, ◌≤◌, ◌≡◌, refl, ap, ◌∙◌, Bool, true, none, List, [], ◌∷◌, arith, length,
}
use thread_component.TcpServer.Run.{is_ended, join_step}
use thread_component.TcpServer.Session.{
  Session, HandlerChoice, HandlerPc, begin, reading, leaving, completing, ended, close_socket,
  close_session, handler_step, handler_move,
}
use thread_component.TcpServer.Phase.{close_slot}

-- Steps of a client's thread; each reads the flag of the worker.
unfoldable pub handler_run : List (HandlerChoice × Bool) → Session → Session
handler_run [] x = x
handler_run ((c, stop) ∷ cs) x = handler_run cs (handler_step c stop x).0

-- How many steps a client's thread has left, at most, once its socket is closed.
abbrev left : HandlerPc → ℕ
left begin = 5
left HandlerPc.testing = 4
left HandlerPc.loading = 3
left (reading _) = 5
left leaving = 2
left completing = 1
left ended = 0

handler_move-closed :
    (c : HandlerChoice) (stop : Bool) (pc : HandlerPc) (x : Session)
    → x.socket ≡ none
    → x.worker ≡ pc
    → let x' = (handler_move c stop pc x).0 in
      ((x'.socket ≡ none) × (x'.taken ≡ x.taken)) × (left x'.worker ≤ left pc - 1)
unfolding handler_move close_session close_socket
handler_move-closed c stop begin x o e = ((o, refl), ground arith)
handler_move-closed c stop HandlerPc.testing x o e = ((o, refl), ground arith)
handler_move-closed c stop HandlerPc.loading x o e = ((o, refl), ground (arith, o))
handler_move-closed c stop (reading y) x o e = ((o, refl), ground arith)
handler_move-closed c stop leaving x o e = ((close_slot x.socket, refl), ground arith)
handler_move-closed c stop completing x o e = ((o, refl), ground arith)
handler_move-closed c stop ended x o e = ((o, refl), omega (arith, ap left e))

handler_run-closed :
    (cs : List (HandlerChoice × Bool)) (x : Session)
    → x.socket ≡ none
    → let x' = handler_run cs x in
      ((x'.socket ≡ none) × (x'.taken ≡ x.taken)) × (left x'.worker ≤ left x.worker - length cs)
unfolding handler_run handler_step
handler_run-closed [] x o = ((o, refl), omega arith)
handler_run-closed ((c, stop) ∷ cs) x o =
    let ((o', same), less) = handler_move-closed c stop x.worker x o refl in
    let x' = handler_step c stop x in
    let ((o'', same'), less') = handler_run-closed cs x'.0 o' in
    ((o'', same' ∙ same), omega (arith, less, less'))

left_max : (pc : HandlerPc) → left pc ≤ 5
left_max pc = ground arith

none_left : (pc : HandlerPc) → left pc ≤ 0 → is_ended pc ≡ true
none_left pc h = ground (arith, h)

join_ended :
    (x : Session) (xs : List Session)
    → x.taken ≡ true
    → x.socket ≡ none
    → is_ended x.worker ≡ true
    → join_step (x ∷ xs) ≡ (xs, [])
unfolding join_step
join_ended x xs t o e = rw (t, o, e) refl

-- Once a thread that joins a session has closed its socket, five steps of the client's thread are
-- enough for the join to pass, whatever `recv`, the callback and the flag of the worker do.
pub join_passes :
    (cs : List (HandlerChoice × Bool)) (x : Session) (xs : List Session)
    → x.taken ≡ true
    → 5 ≤ length cs
    → join_step (handler_run cs (close_session x).0 ∷ xs) ≡ (xs, [])
unfolding close_session
join_passes cs x xs t enough =
    let y = (close_session x).0 in
    let ((o, same), less) = handler_run-closed cs y (close_slot x.socket) in
    let z = handler_run cs y in
    join_ended z xs (same ∙ t) o
      (none_left z.worker (omega (arith, less, enough, left_max y.worker)))
