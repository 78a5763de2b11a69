-- ===== src/Hdlc/Session/Window.antt =====
-- hdlc_session.cpp: the calls of a session, sequence numbers and the transmit window under any sequence of calls.
use dlms.Prelude.{
  ◌≤◌, ◌<◌, ◌≡◌, ◌⊎◌, Bool, true, false, not, List, [], ◌∷◌, arith, Result, done, fail, Bytes, Span,
  null, Allocator,
}
use dlms.Hdlc.Types.{HdlcFrameBuffer, HdlcControl, HdlcStatus}
use dlms.Hdlc.Control.{receive_sequence}
use dlms.Hdlc.Session.Negotiation.{is_default_negotiation_limits}
use dlms.Hdlc.Session.State.{
  HdlcSessionOptions, server, disconnected, HdlcSession, distance, new_session,
  can_send_information_frame,
}
use dlms.Hdlc.Session.Receive.{
  next_sequence, is_outside_window, receive_frame, receive_information_frame,
  receive_supervisory_frame, receive_unnumbered_frame, receive_snrm, receive_snrm_parsed,
  receive_ua, with_ua_params, receive_disc,
}
use dlms.Hdlc.Session.Build.{
  on_success, build_connect_request_internal, build_connect_request, build_connect_request_with,
  take_negotiated, answer_connect, build_connect_response, build_disconnect_request,
  build_disconnect_response, build_dm_response, build_information_frame, build_receive_ready_frame,
}

-- Sequence numbers of three bits, no more frames outstanding than the window allows, and a
-- connection is only answered by a server that has sent nothing.
abbrev pub InWindow : HdlcSession → Type 0
InWindow s =
    (s.send_sequence < 8)
    × (s.receive_sequence < 8)
    × (s.acknowledge_sequence < 8)
    × (distance s.send_sequence s.acknowledge_sequence ≤ s.window_size_transmit)
    × ((s.connect_response_pending ≡ false)
        ⊎ ((s.options.role ≡ server)
            × (s.state ≡ disconnected)
            × (s.send_sequence ≡ 0)
            × (s.acknowledge_sequence ≡ 0)))

pub data SessionCall : Type 0 where
  connect_request : SessionCall
  connect_request_with : Span → SessionCall
  connect_response : SessionCall
  disconnect_request : Span → SessionCall
  disconnect_response : SessionCall
  dm_response : SessionCall
  information_frame : Span → Bool → SessionCall
  receive_ready : Bool → SessionCall
  receive : HdlcFrameBuffer → SessionCall

unfoldable pub call : Allocator → HdlcSession → SessionCall → HdlcSession
call alloc s connect_request = (build_connect_request alloc s).session
call alloc s (connect_request_with info) = (build_connect_request_with alloc s info).session
call alloc s connect_response = (build_connect_response alloc s).session
call alloc s (disconnect_request info) = (build_disconnect_request alloc s info).session
call alloc s disconnect_response = (build_disconnect_response alloc s).session
call alloc s dm_response = (build_dm_response alloc s).session
call alloc s (information_frame info poll) = (build_information_frame alloc s info poll).session
call alloc s (receive_ready poll) = (build_receive_ready_frame alloc s poll).session
call alloc s (receive frame) = (receive_frame s frame).session

unfoldable pub call_all : Allocator → HdlcSession → List SessionCall → HdlcSession
call_all alloc s [] = s
call_all alloc s (c ∷ cs) = call_all alloc (call alloc s c) cs

on_success-InWindow :
    (o : Result HdlcStatus Bytes) (s next : HdlcSession)
    → InWindow s
    → InWindow next
    → InWindow (on_success o s next).session
on_success-InWindow (done w) s next h k = k
on_success-InWindow (fail e) s next h k = h

new_session-InWindow : (options : HdlcSessionOptions) → InWindow (new_session options)
unfolding new_session
new_session-InWindow options = ground arith

build_connect_request_internal-InWindow :
    (alloc : Allocator) (s : HdlcSession) (n : Bool) (info : Span)
    → InWindow s
    → InWindow (build_connect_request_internal alloc s n info).session
unfolding build_connect_request_internal
build_connect_request_internal-InWindow alloc s n info h = ground arith

build_connect_response-InWindow :
    (alloc : Allocator) (s : HdlcSession)
    → InWindow s
    → InWindow (build_connect_response alloc s).session
unfolding build_connect_response answer_connect take_negotiated
build_connect_response-InWindow alloc s h = ground arith

build_disconnect_request-InWindow :
    (alloc : Allocator) (s : HdlcSession) (info : Span)
    → InWindow s
    → InWindow (build_disconnect_request alloc s info).session
unfolding build_disconnect_request
build_disconnect_request-InWindow alloc s info h = ground arith

build_disconnect_response-InWindow :
    (alloc : Allocator) (s : HdlcSession)
    → InWindow s
    → InWindow (build_disconnect_response alloc s).session
unfolding build_disconnect_response
build_disconnect_response-InWindow alloc s h = ground arith

build_dm_response-InWindow :
    (alloc : Allocator) (s : HdlcSession)
    → InWindow s
    → InWindow (build_dm_response alloc s).session
unfolding build_dm_response
build_dm_response-InWindow alloc s h = ground arith

build_information_frame-InWindow :
    (alloc : Allocator) (s : HdlcSession) (info : Span) (poll : Bool)
    → InWindow s
    → InWindow (build_information_frame alloc s info poll).session
unfolding build_information_frame can_send_information_frame next_sequence
build_information_frame-InWindow alloc s info poll h = ground arith

build_receive_ready_frame-InWindow :
    (alloc : Allocator) (s : HdlcSession) (poll : Bool)
    → InWindow s
    → InWindow (build_receive_ready_frame alloc s poll).session
unfolding build_receive_ready_frame
build_receive_ready_frame-InWindow alloc s poll h = ground arith

pub receive_sequence-lt : (c : HdlcControl) → receive_sequence c < 8
unfolding receive_sequence
receive_sequence-lt c = ground arith

receive_information_frame-InWindow :
    (s : HdlcSession) (frame : HdlcFrameBuffer)
    → InWindow s
    → InWindow (receive_information_frame s frame).session
unfolding receive_information_frame is_outside_window next_sequence
receive_information_frame-InWindow s frame h = ground (arith, receive_sequence-lt frame.control)

receive_supervisory_frame-InWindow :
    (s : HdlcSession) (frame : HdlcFrameBuffer)
    → InWindow s
    → InWindow (receive_supervisory_frame s frame).session
unfolding receive_supervisory_frame is_outside_window
receive_supervisory_frame-InWindow s frame h = ground (arith, receive_sequence-lt frame.control)

receive_snrm-InWindow :
    (s : HdlcSession) (frame : HdlcFrameBuffer)
    → InWindow s
    → InWindow (receive_snrm s frame).session
unfolding receive_snrm receive_snrm_parsed
receive_snrm-InWindow s frame h = ground arith

receive_ua-InWindow :
    (s : HdlcSession) (frame : HdlcFrameBuffer) → InWindow s → InWindow (receive_ua s frame).session
unfolding receive_ua with_ua_params
receive_ua-InWindow s frame h = ground arith

receive_disc-InWindow :
    (s : HdlcSession) (frame : HdlcFrameBuffer)
    → InWindow s
    → InWindow (receive_disc s frame).session
unfolding receive_disc
receive_disc-InWindow s frame h = ground arith

receive_frame-InWindow :
    (s : HdlcSession) (frame : HdlcFrameBuffer)
    → InWindow s
    → InWindow (receive_frame s frame).session
unfolding receive_frame receive_unnumbered_frame
receive_frame-InWindow s frame h = ground (
  arith,
  receive_information_frame-InWindow s frame h,
  receive_supervisory_frame-InWindow s frame h,
  receive_snrm-InWindow s frame h,
  receive_ua-InWindow s frame h,
  receive_disc-InWindow s frame h,
)

call-InWindow :
    (alloc : Allocator) (s : HdlcSession) (c : SessionCall) → InWindow s → InWindow (call alloc s c)
unfolding call build_connect_request build_connect_request_with
call-InWindow alloc s connect_request h =
    build_connect_request_internal-InWindow alloc s
      (not (is_default_negotiation_limits s.options.negotiation_limits)) (null 0) h
call-InWindow alloc s (connect_request_with info) h =
    build_connect_request_internal-InWindow alloc s true info h
call-InWindow alloc s connect_response h = build_connect_response-InWindow alloc s h
call-InWindow alloc s (disconnect_request info) h = build_disconnect_request-InWindow alloc s info h
call-InWindow alloc s disconnect_response h = build_disconnect_response-InWindow alloc s h
call-InWindow alloc s dm_response h = build_dm_response-InWindow alloc s h
call-InWindow alloc s (information_frame info poll) h =
    build_information_frame-InWindow alloc s info poll h
call-InWindow alloc s (receive_ready poll) h = build_receive_ready_frame-InWindow alloc s poll h
call-InWindow alloc s (receive frame) h = receive_frame-InWindow s frame h

call_all-keeps :
    (alloc : Allocator) (s : HdlcSession) (cs : List SessionCall)
    → InWindow s
    → InWindow (call_all alloc s cs)
unfolding call_all
call_all-keeps alloc s [] h = h
call_all-keeps alloc s (c ∷ cs) h =
    call_all-keeps alloc (call alloc s c) cs (call-InWindow alloc s c h)

-- Whatever calls are made on a new session, in any order and with any frames received, its sequence
-- numbers stay below 8, the frames outstanding within the transmit window in force, also where
-- negotiation changes it, and a connection is only ever answered by a disconnected server with
-- nothing sent.
pub call_all-InWindow :
    (alloc : Allocator) (options : HdlcSessionOptions) (calls : List SessionCall)
    → InWindow (call_all alloc (new_session options) calls)
call_all-InWindow alloc options calls =
    call_all-keeps alloc (new_session options) calls (new_session-InWindow options)
