-- ===== src/Lib.antt =====
-- The CTRL+F AI service (repository ctrlf-ai, Python): the parts that keep state and decide what a
-- user may do.
--
-- The parts, and the files that model them. Paths are from the repository's root.
-- * Intent router. A query goes through the keyword rules (app/services/rule_router.py: `Routing/Rule`
--   with its sets in `Routing/Keywords`), where the rules are unsure through the language model
--   (app/services/llm_router.py: `Routing/Llm`, and `Routing/Reply` for the reading of its reply), and
--   the orchestrator (app/services/router_orchestrator.py) asks back or asks for a confirmation before it lets a result be executed:
--   `Routing/Pending` is the store of what each session is asked, `Routing/Fresh` the routing of a new
--   query, `Routing/Orchestrator` the answers to what was asked and `RouterOrchestrator.route` as a
--   whole. `Routing/Types` is app/models/router_types.py, `Routing/RouteMap` is
--   app/services/chat/route_mapper.py. `Routing/Sessions` and its children hold the proofs about the
--   store, over single calls and (`Routing/Sessions/History`) over every sequence of calls.
-- * Video progress (app/services/video_progress_service.py, app/models/video_progress.py): `Video/Store`
--   is `VideoProgressStore`, `Video/Service` with its children the handlers of `VideoProgressService`,
--   `Video/Trace` the calls as a sequence. Its mandatory trainings are those of the catalogue.
-- * Education catalogue (app/services/education_catalog_service.py): `Education`, with
--   `Education/Expiry` for the due dates and `Education/Reissue` for the copies for a new year.
-- * TTL cache (app/utils/cache.py): `Cache`, with `Cache/History` for sequences of calls.
-- * Retry (app/core/retry.py): `Retry`.
-- * Metrics (app/core/metrics.py): `Metrics`, with `Metrics/History` for sequences of calls.
-- * Render jobs. A video is rendered by a job that the backend creates, starts, retries or cancels
--   (app/services/render_job_runner.py): `Render/Runner` has the calls, `Render/Pipeline` the task of a
--   job from await to await, `Render/Events` the calls and the tasks interleaved in any order.
--   `Render/Jobs` is the table of jobs (app/repositories/render_job_repository.py), `Render/Status` and
--   `Render/Steps` are the statuses and steps (app/models/video_render.py, with the progress of
--   app/api/v1/ws_render_progress.py), `Render/Spec` is the render-spec that a job takes a snapshot of
--   (app/models/render_spec.py). `Render/Watchers` are the sockets that are told of the progress
--   (app/api/v1/ws_render_progress.py). The children hold the proofs.
-- * Text splitter (app/utils/text_splitter.py): `Splitter`; video splitter
--   (app/utils/video_splitter.py): `Splitter/Videos`.
-- * `Text` is what the program uses of Python's `str`, `Floats` the arithmetic of floats as a parameter
--   with its laws (`Floats/FixedPoint` is an instance of them), `Prelude` the shared helpers, `Tests`
--   the runs on concrete inputs.
--
-- How the code is modelled. A method of a service is a function of the state before to the state after
-- and the response; a dict is an association list in insertion order (`Prelude/Dict`). What a call reads
-- from outside is an argument: the clock at each reading, generated ids, `random.choice`, the answer of
-- the language model (none where an exception is raised on the way), the outcomes of a retried
-- operation. An exception that leaves a method is a result without a value. Numbers are natural
-- numbers; confidences are counted in hundredths, clocks in seconds. No fuel is needed: each loop is a
-- recursion on the list or the number that it runs over.
--
-- In `Render` a coroutine is cut at its awaits: what runs between two of them is one function, how an
-- await ends is an argument, and a runner holds the tasks that wait. In the other parts a call runs to
-- its end before the next one starts.
--
-- Not modelled: logging; interleavings at an await outside `Render`, and within a broadcast to the
-- watchers; the validation of requests by pydantic; the messages to the language model; and
-- the parts of the service that are calls of external services, prompt texts, media files and endpoints.
mod Prelude
pub mod Floats
pub mod Education
pub mod Metrics
pub mod Video
pub mod Text
pub mod Routing
pub mod Splitter
pub mod Render
pub mod Retry
pub mod Tests
pub mod Cache
