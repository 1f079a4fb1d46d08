-- ===== src/Render/Steps.antt =====
-- app/models/video_render.py: the steps of the pipeline, and app/api/v1/ws_render_progress.py: the
-- progress that each of them starts at.
use ctrlf_ai.Prelude.{ℕ, String, List, [], ◌∷◌}

pub data RenderStep : Type 0 where
  validate_script generate_tts generate_subtitle render_slides : RenderStep
  compose_video upload_assets finalize : RenderStep

-- `STEP_PROGRESS_MAP`
abbrev pub step_progress_map : RenderStep → ℕ × ℕ × String
step_progress_map validate_script = (0, 5, "스크립트 검증 중...")
step_progress_map generate_tts = (5, 30, "음성 합성 중...")
step_progress_map generate_subtitle = (30, 40, "자막 생성 중...")
step_progress_map render_slides = (40, 55, "슬라이드 렌더링 중...")
step_progress_map compose_video = (55, 85, "영상 합성 중...")
step_progress_map upload_assets = (85, 95, "에셋 업로드 중...")
step_progress_map finalize = (95, 100, "마무리 중...")

-- `get_step_progress(step, 0.0)`, the only way the runner calls it
unfoldable pub get_step_progress : RenderStep → ℕ × String
get_step_progress step = let (start, end, message) = step_progress_map step in (start, message)

-- The steps in the order in which the runner takes them
abbrev pub steps : List RenderStep
steps =
    validate_script ∷ generate_tts ∷ generate_subtitle ∷ render_slides ∷ compose_video
    ∷ upload_assets ∷ finalize ∷ []
