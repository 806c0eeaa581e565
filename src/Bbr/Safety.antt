-- ===== src/Bbr/Safety.antt =====
-- About the cluster pointers of MyBbrSender (my_bbr_sender.cc).
pub mod Links
pub mod Neighbours
pub mod Tail
pub mod Growth
pub mod Marks
pub mod Acking
pub mod Invariant
pub mod Views
pub mod SendStep
pub mod AckStep
pub mod Window
pub mod Quiet
pub mod Phases
pub mod Tuning
pub mod Steps
pub mod Run
pub mod Control
pub mod LastAck
pub mod Overtaken
