-- ===== src/Hcp2.antt =====
-- components/hcpbridge/hcp2_codec.h and hcp2_codec.cpp, `Hcp2Codec`: what is answered on the newer
-- bus. The child modules hold the functions by what they are about, and the theorems.
pub mod Codec
pub mod Commands
pub mod Watch
pub mod Poll
pub mod Broadcast
pub mod Identity
pub mod Frame
pub mod Presses
pub mod Board
pub mod Changed
pub mod Noted
pub mod Wire
pub mod Repeats
pub mod Budget
pub mod Stop
pub mod Target
pub mod Counter
pub mod Answers
pub mod NoStop
pub mod OwnStop
pub mod Runs
pub mod Bounds
pub mod Pause
pub mod Text
pub mod Tasks
mod Tests
