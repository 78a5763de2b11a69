-- ===== src/Apdu.antt =====
-- lib/dlms-apdu: the codecs of ACSE and xDLMS APDUs.
pub mod Types
pub mod Reader
pub mod Writer
pub mod Wire
pub mod Octets
pub mod Axdr
pub mod Ber
pub mod Items
pub mod Descriptor
pub mod Data
pub mod Services
pub mod Get
pub mod Set
pub mod Action
