-- ===== src/Hdlc/Session/Outstanding.antt =====
-- hdlc_session.cpp: the sequence numbers against the count of the frames on the line.
use dlms.Prelude.{
  ◌↔◌, false, ltb→lt, lt→ltb, le→ltb, ltb-false→le, ℕ, ◌+◌, ◌%◌, ◌≤◌, ◌<◌, ◌≡◌, true, not, List, [],
  ◌∷◌, arith, null, Allocator,
}
use dlms.Hdlc.Types.{HdlcFrameBuffer, HdlcControl}
use dlms.Hdlc.Control.{information, supervisory, unnumbered, frame_kind, receive_sequence}
use dlms.Hdlc.Session.Negotiation.{is_default_negotiation_limits}
use dlms.Hdlc.Session.State.{
  can_send_information_frame, HdlcSessionOptions, HdlcSession, distance, new_session,
}
use dlms.Hdlc.Session.Receive.{
  next_sequence, is_outside_window, receive_frame, receive_information_frame,
  receive_supervisory_frame, receive_unnumbered_frame, receive_snrm, receive_snrm_parsed,
  receive_ua, with_ua_params, receive_disc,
}
use dlms.Hdlc.Session.Build.{build_connect_request, build_connect_request_with}
use dlms.Hdlc.Session.Window.{
  InWindow, SessionCall, connect_request, connect_request_with, connect_response,
  disconnect_request, disconnect_response, dm_response, information_frame, receive_ready, receive,
  call, call_all, call_all-InWindow, receive_sequence-lt,
}
use dlms.Hdlc.Session.Refusals.{
  parse_snrm_info_field-not_ok, supervisory_kind-not_ok, unnumbered_kind-not_ok,
}
use dlms.Hdlc.Session.Counts.{
  LinkCounts, no_frames, count_of_bits, count_frame, if_accepted, count_call, count_calls,
  SmallWindows, Counts, build_connect_request_internal-Counts, build_connect_response-Counts,
  build_disconnect_request-Counts, build_disconnect_response-Counts, build_dm_response-Counts,
  build_information_frame-Counts, build_receive_ready_frame-Counts,
}

count_of_bits-mod : (start bits : ℕ) → bits < 8 → count_of_bits start bits % 8 ≡ bits
count_of_bits-mod start bits h = omega arith

-- An acknowledgement within the window moves the count of what is outstanding.
count_of_bits-distance :
    (sent acknowledged bits : ℕ)
    → bits < 8
    → sent ≡ acknowledged + distance (sent % 8) (acknowledged % 8)
    → distance bits (acknowledged % 8) ≤ distance (sent % 8) (acknowledged % 8)
    → sent ≡ count_of_bits acknowledged bits + distance (sent % 8) bits
count_of_bits-distance sent acknowledged bits h e k = omega arith

receive_information_frame-Counts :
    (s : HdlcSession) (frame : HdlcFrameBuffer) (n : LinkCounts)
    → frame_kind frame.control ≡ information
    → Counts s n
    → Counts
        (receive_information_frame s frame).session
        (if_accepted (receive_information_frame s frame) (count_frame frame.control n) n)
unfolding receive_information_frame is_outside_window next_sequence count_frame
receive_information_frame-Counts s frame n kind h = ground (
  arith,
  receive_sequence-lt frame.control,
  count_of_bits-mod n.acknowledged (receive_sequence frame.control),
  count_of_bits-distance n.sent n.acknowledged (receive_sequence frame.control),
)

receive_supervisory_frame-Counts :
    (s : HdlcSession) (frame : HdlcFrameBuffer) (n : LinkCounts)
    → frame_kind frame.control ≡ supervisory
    → Counts s n
    → Counts
        (receive_supervisory_frame s frame).session
        (if_accepted (receive_supervisory_frame s frame) (count_frame frame.control n) n)
unfolding receive_supervisory_frame is_outside_window count_frame
receive_supervisory_frame-Counts s frame n kind h = ground (
  arith,
  supervisory_kind-not_ok frame.control,
  receive_sequence-lt frame.control,
  count_of_bits-mod n.acknowledged (receive_sequence frame.control),
  count_of_bits-distance n.sent n.acknowledged (receive_sequence frame.control),
)

receive_snrm-Counts :
    (s : HdlcSession) (frame : HdlcFrameBuffer) (n : LinkCounts)
    → Counts s n
    → Counts (receive_snrm s frame).session (if_accepted (receive_snrm s frame) no_frames n)
unfolding receive_snrm receive_snrm_parsed
receive_snrm-Counts s frame n h = ground (arith, parse_snrm_info_field-not_ok frame.information)

receive_ua-Counts :
    (s : HdlcSession) (frame : HdlcFrameBuffer) (n : LinkCounts)
    → Counts s n
    → Counts (receive_ua s frame).session (if_accepted (receive_ua s frame) no_frames n)
unfolding receive_ua with_ua_params
receive_ua-Counts s frame n h = ground arith

receive_disc-Counts :
    (s : HdlcSession) (frame : HdlcFrameBuffer) (n : LinkCounts)
    → Counts s n
    → Counts (receive_disc s frame).session n
unfolding receive_disc
receive_disc-Counts s frame n h = ground arith

receive_unnumbered_frame-Counts :
    (s : HdlcSession) (frame : HdlcFrameBuffer) (n : LinkCounts)
    → frame_kind frame.control ≡ unnumbered
    → Counts s n
    → Counts
        (receive_unnumbered_frame s frame).session
        (if_accepted (receive_unnumbered_frame s frame) (count_frame frame.control n) n)
unfolding receive_unnumbered_frame count_frame
receive_unnumbered_frame-Counts s frame n kind h = ground (
  arith,
  unnumbered_kind-not_ok frame.control,
  receive_snrm-Counts s frame n h,
  receive_ua-Counts s frame n h,
  receive_disc-Counts s frame n h,
)

receive_frame-Counts :
    (s : HdlcSession) (frame : HdlcFrameBuffer) (n : LinkCounts)
    → Counts s n
    → Counts
        (receive_frame s frame).session
        (if_accepted (receive_frame s frame) (count_frame frame.control n) n)
unfolding receive_frame
receive_frame-Counts s frame n h = ground (
  arith,
  receive_information_frame-Counts s frame n,
  receive_supervisory_frame-Counts s frame n,
  receive_unnumbered_frame-Counts s frame n,
)

call-Counts :
    (alloc : Allocator) (s : HdlcSession) (c : SessionCall) (n : LinkCounts)
    → s.window_size_transmit ≤ 7
    → Counts s n
    → Counts (call alloc s c) (count_call alloc s c n)
unfolding call count_call build_connect_request build_connect_request_with
call-Counts alloc s connect_request n small h =
    build_connect_request_internal-Counts alloc s
      (not (is_default_negotiation_limits s.options.negotiation_limits)) (null 0) n h
call-Counts alloc s (connect_request_with info) n small h =
    build_connect_request_internal-Counts alloc s true info n h
call-Counts alloc s connect_response n small h = build_connect_response-Counts alloc s n h
call-Counts alloc s (disconnect_request info) n small h =
    build_disconnect_request-Counts alloc s info n h
call-Counts alloc s disconnect_response n small h = build_disconnect_response-Counts alloc s n h
call-Counts alloc s dm_response n small h = build_dm_response-Counts alloc s n h
call-Counts alloc s (information_frame info poll) n small h =
    build_information_frame-Counts alloc s info poll n small h
call-Counts alloc s (receive_ready poll) n small h =
    build_receive_ready_frame-Counts alloc s poll n h
call-Counts alloc s (receive frame) n small h = receive_frame-Counts s frame n h

call_all-Counts :
    (alloc : Allocator) (s : HdlcSession) (cs : List SessionCall) (n : LinkCounts)
    → SmallWindows alloc s cs
    → Counts s n
    → Counts (call_all alloc s cs) (count_calls alloc s cs n)
unfolding call_all count_calls
call_all-Counts alloc s [] n small h = h
call_all-Counts alloc s (c ∷ cs) n small h =
    call_all-Counts alloc (call alloc s c) cs (count_call alloc s c n) small.1
      (call-Counts alloc s c n small.0 h)

-- The numbers of a session modulo 8 are the true counts, no more is acknowledged than was sent, and
-- no more is outstanding than the transmit window in force allows.
abbrev pub InStep : HdlcSession → LinkCounts → Type 0
InStep s n =
    (s.send_sequence ≡ n.sent % 8)
    × (s.receive_sequence ≡ n.received % 8)
    × (s.acknowledge_sequence ≡ n.acknowledged % 8)
    × (n.acknowledged ≤ n.sent)
    × (n.sent ≤ n.acknowledged + s.window_size_transmit)

-- What the session decides by its numbers is what the counts say: whether the window is open, and
-- whether the N(R) of a frame acknowledges no frame that was not sent.
abbrev pub Decides : HdlcSession → LinkCounts → HdlcControl → Type 0
Decides s n control =
    ((can_send_information_frame s ≡ true) ↔ (n.sent < n.acknowledged + s.window_size_transmit))
    × ((is_outside_window s (receive_sequence control) ≡ false)
        ↔ (count_of_bits n.acknowledged (receive_sequence control) ≤ n.sent))

Counts-InStep : (s : HdlcSession) (n : LinkCounts) → InWindow s → Counts s n → InStep s n
Counts-InStep s n w h = ground arith

can_send-Counts :
    (s : HdlcSession) (n : LinkCounts)
    → Counts s n
    → (can_send_information_frame s ≡ true) ↔ (n.sent < n.acknowledged + s.window_size_transmit)
unfolding can_send_information_frame
can_send-Counts s n h = (λ e. omega (arith, h, ltb→lt _ _ e), λ e. lt→ltb _ _ (omega (arith, h, e)))

outside-Counts :
    (s : HdlcSession) (n : LinkCounts) (bits : ℕ)
    → bits < 8
    → Counts s n
    → (is_outside_window s bits ≡ false) ↔ (count_of_bits n.acknowledged bits ≤ n.sent)
unfolding is_outside_window
outside-Counts s n bits small h =
    (λ e. omega (arith, h, ltb-false→le _ _ e), λ e. le→ltb _ _ (omega (arith, h, e)))

new_session-Counts : (options : HdlcSessionOptions) → Counts (new_session options) no_frames
unfolding new_session
new_session-Counts options = ground arith

-- Whatever calls are made on a new session, in any order and with any frames received, as long as
-- the transmit window is 7 at most at each call: V(S) is the number of information frames that were
-- built since the connection was made, modulo 8, V(R) that of the information frames accepted, and
-- V(A) that of the frames acknowledged, where each accepted N(R) acknowledges the frames up to the
-- first one, from those already acknowledged on, that has this number. No more are acknowledged
-- than were sent, and no more are outstanding than the transmit window in force allows. The window
-- is open exactly while fewer are outstanding, and the N(R) of a next frame is within the window
-- exactly if the frames that it acknowledges were sent.
pub call_all-InStep :
    (alloc : Allocator) (options : HdlcSessionOptions) (calls : List SessionCall)
    (control : HdlcControl)
    → SmallWindows alloc (new_session options) calls
    → InStep
        (call_all alloc (new_session options) calls)
        (count_calls alloc (new_session options) calls no_frames)
      × Decides
          (call_all alloc (new_session options) calls)
          (count_calls alloc (new_session options) calls no_frames)
          control
call_all-InStep alloc options calls control small = (
  Counts-InStep after counted (call_all-InWindow alloc options calls) counts,
  (
    can_send-Counts after counted counts,
    outside-Counts after counted (receive_sequence control) (receive_sequence-lt control) counts,
  ),
)
  where
    after : HdlcSession
    after = call_all alloc (new_session options) calls

    counted : LinkCounts
    counted = count_calls alloc (new_session options) calls no_frames

    counts :
        Counts
          (call_all alloc (new_session options) calls)
          (count_calls alloc (new_session options) calls no_frames)
    counts =
        call_all-Counts alloc (new_session options) calls no_frames small
          (new_session-Counts options)
