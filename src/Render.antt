-- ===== src/Render.antt =====
-- Render jobs, from the request to the finished video: models/video_render.py (statuses),
-- models/render_spec.py, repositories/render_job_repository.py, services/render_job_runner.py, all
-- under app, and what api/v1/ws_render_progress.py says of the progress of each step.
pub mod Status
pub mod Steps
pub mod Spec
pub mod Script
pub mod Jobs
pub mod Pipeline
pub mod Runner
pub mod Events
pub mod Watchers
pub mod Sound
