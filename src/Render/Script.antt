-- ===== src/Render/Script.antt =====
-- app/models/video_render.py: the script of a video.
use ctrlf_ai.Prelude.{ℕ, String, Bool, true, false, Option}
use ctrlf_ai.Render.Spec.{RawJson}

pub data ScriptStatus : Type 0 where
  draft pending_review approved rejected published : ScriptStatus

pub data KbIndexStatus : Type 0 where
  not_indexed pending running succeeded failed : KbIndexStatus

pub data KbDocumentStatus : Type 0 where
  active archived : KbDocumentStatus

pub record VideoScript (F : Type 0) : Type 0 where
  pub script_id : String
  pub video_id : String
  pub status : ScriptStatus
  pub raw_json : RawJson F
  pub created_by : String
  pub created_at : ℕ
  pub kb_index_status : KbIndexStatus
  pub kb_indexed_at : Option ℕ
  pub kb_last_error : Option String
  pub kb_document_id : Option String
  pub kb_document_status : KbDocumentStatus

module _ {F : Type 0} where
  unfoldable pub is_approved : VideoScript F → Bool
  is_approved script = elim script.status [ approved ↦ true | published ↦ true | _ ↦ false ]

  unfoldable pub is_published : VideoScript F → Bool
  is_published script = elim script.status [ published ↦ true | _ ↦ false ]

  unfoldable pub is_kb_indexed : VideoScript F → Bool
  is_kb_indexed script = elim script.kb_index_status [ succeeded ↦ true | _ ↦ false ]
