-- ===== src/Video.antt =====
-- The progress of training videos: app/models/video_progress.py and
-- app/services/video_progress_service.py. The records are in `Models`, the store in `Store`, the
-- handlers in `Service`; the proofs are in the other children.
pub mod Models
pub mod Store
pub mod Service
pub mod Trace
pub mod Refusals
pub mod Progress
pub mod Completion
pub mod Gates
pub mod Rewatch
