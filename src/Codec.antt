-- ===== src/Codec.antt =====
-- src/communication/JointCommandCodec.cpp and JointStateCodec.cpp: commands and states as CAN frames,
-- in hundredths of a degree.
pub mod Command
pub mod State
pub mod Trip
pub mod Exact
