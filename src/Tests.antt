-- ===== src/Tests.antt =====
-- Runs on concrete inputs, and the theorems at them.
mod CacheRuns
mod VideoRuns
mod RoutingRuns
mod RetryRuns
mod SmallRuns
mod SplitterRuns
mod RenderRuns
mod WatcherRuns
mod MetricsRuns
mod ReplyRuns
