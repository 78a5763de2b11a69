-- ===== src/Hdlc/Session.antt =====
-- lib/dlms-hdlc/src/hdlc/hdlc_session.cpp: the session of one client and one server. `Negotiation`
-- is the Information field of SNRM and UA, `State` the members of the class, `Build` and `Receive`
-- its operations. The others prove: `Fields` about control bytes, `Window` about sequence numbers,
-- `Refusals`, `Counts` and `Outstanding` about the frames on the line, `Connect` about negotiation,
-- `Delivery` about an I-frame between two sessions.
pub mod Negotiation
pub mod State
pub mod Build
pub mod Receive
pub mod Fields
pub mod Window
pub mod Refusals
pub mod Counts
pub mod Outstanding
pub mod Connect
pub mod Delivery
