-- ===== src/Resp.antt =====
-- internal/resp: the frames of the protocol (Value), the decimal numbers in them (Decimal), the
-- reader and the writer, with their proofs.
pub mod Value
pub mod Decimal
pub mod Writer
pub mod Reader
pub mod Frames
pub mod RoundTrip
pub mod Progress
pub mod Splitting
