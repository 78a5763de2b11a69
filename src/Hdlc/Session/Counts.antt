-- ===== src/Hdlc/Session/Counts.antt =====
-- hdlc_session.cpp: a count of the frames on the line, without end, and what the calls that build
-- frames do to it.
use dlms.Prelude.{
  ℕ, ◌+◌, ◌-◌, ◌%◌, ◌≤◌, ◌≡◌, Bool, List, [], ◌∷◌, arith, done, fail, Span, Allocator,
}
use dlms.Hdlc.Types.{HdlcControl, ok}
use dlms.Hdlc.Control.{
  disc, information, supervisory, unnumbered, frame_kind, receive_sequence, unnumbered_kind,
}
use dlms.Hdlc.Session.State.{HdlcSession, distance, can_send_information_frame}
use dlms.Hdlc.Session.Receive.{Received, next_sequence, receive_frame}
use dlms.Hdlc.Session.Build.{
  Built, build_connect_request_internal, build_connect_request, build_connect_request_with,
  take_negotiated, answer_connect, build_connect_response, build_disconnect_request,
  build_disconnect_response, build_dm_response, build_information_frame, build_receive_ready_frame,
}
use dlms.Hdlc.Session.Window.{
  SessionCall, connect_request, connect_request_with, connect_response, disconnect_request,
  disconnect_response, dm_response, information_frame, receive_ready, receive, call,
}

-- The information frames of the connection in force, counted from its start without end: sent,
-- taken from the other side in turn, and of those sent the ones that the other side has taken.
pub record LinkCounts : Type 0 where
  pub sent : ℕ
  pub received : ℕ
  pub acknowledged : ℕ

abbrev pub no_frames : LinkCounts
no_frames = record { sent = 0; received = 0; acknowledged = 0 }

-- The first count from `start` on that the three bits can stand for.
abbrev pub count_of_bits : ℕ → ℕ → ℕ
count_of_bits start bits = start + (bits + 8 - start % 8) % 8

-- An accepted frame counts by its kind. Of the accepted unnumbered frames only a DISC does not
-- start the numbers anew.
unfoldable pub count_frame : HdlcControl → LinkCounts → LinkCounts
count_frame control n = elim (frame_kind control) [
  | information ↦ record {
    sent = n.sent;
    received = n.received + 1;
    acknowledged = count_of_bits n.acknowledged (receive_sequence control);
  }
  | supervisory ↦ record n {
    acknowledged = count_of_bits n.acknowledged (receive_sequence control);
  }
  | unnumbered ↦ elim (unnumbered_kind control) [ done disc ↦ n | other ↦ no_frames ]
]

-- `next` if the call built a frame.
abbrev pub if_built : Built → LinkCounts → LinkCounts → LinkCounts
if_built b next n = elim b.output [ done w ↦ next | fail e ↦ n ]

abbrev pub if_accepted : Received → LinkCounts → LinkCounts → LinkCounts
if_accepted r next n = elim r.status [ ok ↦ next | other ↦ n ]

-- What is counted of a call: the results that the caller gets, never the session's numbers.
unfoldable pub count_call : Allocator → HdlcSession → SessionCall → LinkCounts → LinkCounts
count_call alloc s connect_request n = if_built (build_connect_request alloc s) no_frames n
count_call alloc s (connect_request_with info) n =
    if_built (build_connect_request_with alloc s info) no_frames n
count_call alloc s connect_response n = if_built (build_connect_response alloc s) no_frames n
count_call alloc s (disconnect_request info) n = n
count_call alloc s disconnect_response n = if_built (build_disconnect_response alloc s) no_frames n
count_call alloc s dm_response n = n
count_call alloc s (information_frame info poll) n =
    if_built (build_information_frame alloc s info poll) (record n { sent = n.sent + 1 }) n
count_call alloc s (receive_ready poll) n = n
count_call alloc s (receive frame) n =
    if_accepted (receive_frame s frame) (count_frame frame.control n) n

unfoldable pub count_calls : Allocator → HdlcSession → List SessionCall → LinkCounts → LinkCounts
count_calls alloc s [] n = n
count_calls alloc s (c ∷ cs) n = count_calls alloc (call alloc s c) cs (count_call alloc s c n)

-- The transmit window is 7 at most whenever a call is made: three bits tell no more apart.
abbrev pub SmallWindows : Allocator → HdlcSession → List SessionCall → Type 0
SmallWindows alloc s [] = Unit
SmallWindows alloc s (c ∷ cs) =
    (s.window_size_transmit ≤ 7) × SmallWindows alloc (call alloc s c) cs

-- The session's numbers are the counts modulo 8, and their distance is the frames outstanding.
abbrev pub Counts : HdlcSession → LinkCounts → Type 0
Counts s n =
    (s.send_sequence ≡ n.sent % 8)
    × (s.receive_sequence ≡ n.received % 8)
    × (s.acknowledge_sequence ≡ n.acknowledged % 8)
    × (n.sent ≡ n.acknowledged + distance s.send_sequence s.acknowledge_sequence)

pub build_connect_request_internal-Counts :
    (alloc : Allocator) (s : HdlcSession) (b : Bool) (info : Span) (n : LinkCounts)
    → Counts s n
    → Counts
        (build_connect_request_internal alloc s b info).session
        (if_built (build_connect_request_internal alloc s b info) no_frames n)
unfolding build_connect_request_internal
build_connect_request_internal-Counts alloc s b info n h = ground arith

pub build_connect_response-Counts :
    (alloc : Allocator) (s : HdlcSession) (n : LinkCounts)
    → Counts s n
    → Counts
        (build_connect_response alloc s).session
        (if_built (build_connect_response alloc s) no_frames n)
unfolding build_connect_response answer_connect take_negotiated
build_connect_response-Counts alloc s n h = ground arith

pub build_disconnect_request-Counts :
    (alloc : Allocator) (s : HdlcSession) (info : Span) (n : LinkCounts)
    → Counts s n
    → Counts (build_disconnect_request alloc s info).session n
unfolding build_disconnect_request
build_disconnect_request-Counts alloc s info n h = ground arith

pub build_disconnect_response-Counts :
    (alloc : Allocator) (s : HdlcSession) (n : LinkCounts)
    → Counts s n
    → Counts
        (build_disconnect_response alloc s).session
        (if_built (build_disconnect_response alloc s) no_frames n)
unfolding build_disconnect_response
build_disconnect_response-Counts alloc s n h = ground arith

pub build_dm_response-Counts :
    (alloc : Allocator) (s : HdlcSession) (n : LinkCounts)
    → Counts s n
    → Counts (build_dm_response alloc s).session n
unfolding build_dm_response
build_dm_response-Counts alloc s n h = ground arith

pub build_information_frame-Counts :
    (alloc : Allocator) (s : HdlcSession) (info : Span) (poll : Bool) (n : LinkCounts)
    → s.window_size_transmit ≤ 7
    → Counts s n
    → Counts
        (build_information_frame alloc s info poll).session
        (if_built (build_information_frame alloc s info poll) (record n { sent = n.sent + 1 }) n)
unfolding build_information_frame can_send_information_frame next_sequence
build_information_frame-Counts alloc s info poll n small h = ground arith

pub build_receive_ready_frame-Counts :
    (alloc : Allocator) (s : HdlcSession) (poll : Bool) (n : LinkCounts)
    → Counts s n
    → Counts (build_receive_ready_frame alloc s poll).session n
unfolding build_receive_ready_frame
build_receive_ready_frame-Counts alloc s poll n h = ground arith
