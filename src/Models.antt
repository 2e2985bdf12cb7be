-- ===== src/Models.antt =====
-- The rows of the database: domains/clips/models.py, domains/compilations/models.py,
-- domains/soundtracks/models.py and domains/items/models.py. A UUID is its 128-bit number, a datetime
-- its instant as a number of microseconds, `F` the type of floats.
use video_journal_be.Prelude.{ℕ, ℤ, Bool, Option, List}
use video_journal_be.Errors.{Text}

pub data ClipStatus : Type 0 where
  processing ready failed : ClipStatus

pub record Clip (F : Type 0) : Type 0 where
  pub id : ℕ
  pub original_key : Text
  pub normalized_key : Option Text
  pub filmstrip_key : Option Text
  pub duration_s : Option F
  pub width : Option ℤ
  pub height : Option ℤ
  pub codec_name : Option Text
  pub recorded_at : Option ℕ
  pub uploaded_at : ℕ
  pub trim_in_s : Option F
  pub trim_out_s : Option F
  pub sort_index : F
  pub status : ClipStatus
  pub error_message : Option Text

pub data CompilationStatus : Type 0 where
  pending running complete failed : CompilationStatus

pub record CompilationClip (F : Type 0) : Type 0 where
  pub compilation_id : ℕ
  pub clip_id : ℕ
  pub position : ℕ
  pub trim_in_s : Option F
  pub trim_out_s : Option F

pub record Compilation (F : Type 0) : Type 0 where
  pub id : ℕ
  pub soundtrack_id : Option ℕ
  pub status : CompilationStatus
  pub output_key : Option Text
  pub duration_s : Option F
  pub mix_clip_audio : Bool
  pub clip_audio_volume : F
  pub created_at : ℕ
  pub completed_at : Option ℕ
  pub error : Option Text

pub record Soundtrack (F : Type 0) : Type 0 where
  pub id : ℕ
  pub key : Text
  pub title : Text
  pub duration_s : Option F
  pub uploaded_at : ℕ

pub record Item : Type 0 where
  pub id : ℕ
  pub name : Text
  pub description : Option Text
  pub created_at : ℕ
  pub updated_at : ℕ

-- The tables, each the list of its rows.
pub record Tables (F : Type 0) : Type 0 where
  pub clips : List (Clip F)
  pub compilations : List (Compilation F)
  pub compilation_clips : List (CompilationClip F)
  pub soundtracks : List (Soundtrack F)
  pub items : List Item
