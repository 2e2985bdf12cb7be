-- ===== src/Migrations/Versions.antt =====
-- alembic/versions, one migration per file. The tables that two of them create stand on their own.
use video_journal_be.Prelude.{Bool, true, false, Option, none, some, String, List, [], ◌∷◌}
use video_journal_be.Migrations.{
  ColumnType, uuid, string, float, integer, date_time, boolean, enum, Column, ForeignKey, Operation,
  create_table, drop_table, add_column, drop_column, create_index, drop_index, Migration,
}

abbrev column : String → ColumnType → Bool → Option String → Column
column name kind nullable default = record {
  name = name;
  kind = kind;
  nullable = nullable;
  server_default = default;
}

abbrev foreign_key : String → String → ForeignKey
foreign_key name target = record { columns = name ∷ []; refers_to = target ∷ [] }

-- The first script asks for no native enum, the other leaves the default.
abbrev create_compilations : Bool → Operation
create_compilations native_enum =
    create_table "compilations"
      (column "id" uuid false none
        ∷ column "soundtrack_id" uuid true none
        ∷ column "status" (enum ("pending" ∷ "running" ∷ "complete" ∷ "failed" ∷ []) native_enum)
            false none
        ∷ column "output_key" string true none
        ∷ column "created_at" date_time false (some "(CURRENT_TIMESTAMP)")
        ∷ column "completed_at" date_time true none
        ∷ column "error" string true none
        ∷ [])
      (foreign_key "soundtrack_id" "soundtracks.id" ∷ []) ("id" ∷ [])

abbrev create_compilation_clips : Operation
create_compilation_clips =
    create_table "compilation_clips"
      (column "compilation_id" uuid false none
        ∷ column "clip_id" uuid false none
        ∷ column "position" integer false none
        ∷ column "trim_in_s" float true none
        ∷ column "trim_out_s" float true none
        ∷ [])
      (foreign_key "clip_id" "clips.id" ∷ foreign_key "compilation_id" "compilations.id" ∷ [])
      ("compilation_id" ∷ "clip_id" ∷ [])

abbrev pub initial_schema : Migration
initial_schema = record {
  revision = "00256d0c5bc3";
  down_revision = none;
  upgrade =
      create_table "clips"
        (column "id" uuid false none
          ∷ column "original_key" string false none
          ∷ column "normalized_key" string true none
          ∷ column "filmstrip_key" string true none
          ∷ column "duration_s" float true none
          ∷ column "width" integer true none
          ∷ column "height" integer true none
          ∷ column "recorded_at" date_time true none
          ∷ column "uploaded_at" date_time false (some "(CURRENT_TIMESTAMP)")
          ∷ column "trim_in_s" float true none
          ∷ column "trim_out_s" float true none
          ∷ column "sort_index" float false none
          ∷ column "status" (enum ("processing" ∷ "ready" ∷ "failed" ∷ []) false) false none
          ∷ [])
        [] ("id" ∷ [])
      ∷ create_table "items"
          (column "id" uuid false none
            ∷ column "name" string false none
            ∷ column "description" string true none
            ∷ column "created_at" date_time false (some "(CURRENT_TIMESTAMP)")
            ∷ column "updated_at" date_time false (some "(CURRENT_TIMESTAMP)")
            ∷ [])
          [] ("id" ∷ [])
      ∷ create_index "items" "ix_items_name" ("name" ∷ [])
      ∷ create_table "soundtracks"
          (column "id" uuid false none
            ∷ column "key" string false none
            ∷ column "title" string false none
            ∷ column "duration_s" float true none
            ∷ column "uploaded_at" date_time false (some "(CURRENT_TIMESTAMP)")
            ∷ [])
          [] ("id" ∷ [])
      ∷ create_compilations false
      ∷ create_compilation_clips
      ∷ [];
  downgrade =
      drop_table "compilation_clips"
      ∷ drop_table "compilations"
      ∷ drop_table "soundtracks"
      ∷ drop_index "items" "ix_items_name"
      ∷ drop_table "items"
      ∷ drop_table "clips"
      ∷ [];
}

abbrev pub create_clips_table : Migration
create_clips_table = record {
  revision = "b72d1bfd6187";
  down_revision = some "00256d0c5bc3";
  upgrade = add_column "clips" (column "codec_name" string true none) ∷ [];
  downgrade = drop_column "clips" "codec_name" ∷ [];
}

abbrev pub add_clips_indexes : Migration
add_clips_indexes = record {
  revision = "81950cc83b79";
  down_revision = some "b72d1bfd6187";
  upgrade =
      create_index "clips" "ix_clips_recorded_at" ("recorded_at" ∷ [])
      ∷ create_index "clips" "ix_clips_sort_index" ("sort_index" ∷ [])
      ∷ [];
  downgrade =
      drop_index "clips" "ix_clips_sort_index" ∷ drop_index "clips" "ix_clips_recorded_at" ∷ [];
}

abbrev pub add_clips_error_message : Migration
add_clips_error_message = record {
  revision = "c031cad72484";
  down_revision = some "81950cc83b79";
  upgrade = add_column "clips" (column "error_message" string true none) ∷ [];
  downgrade = drop_column "clips" "error_message" ∷ [];
}

abbrev pub create_soundtracks_table : Migration
create_soundtracks_table = record {
  revision = "1c5f5dfd0769";
  down_revision = some "c031cad72484";
  upgrade = create_index "soundtracks" "ix_soundtracks_uploaded_at" ("uploaded_at" ∷ []) ∷ [];
  downgrade = drop_index "soundtracks" "ix_soundtracks_uploaded_at" ∷ [];
}

abbrev pub add_compilations_tables : Migration
add_compilations_tables = record {
  revision = "8e8cb7d9c562";
  down_revision = some "1c5f5dfd0769";
  upgrade = create_compilations true ∷ create_compilation_clips ∷ [];
  downgrade = drop_table "compilation_clips" ∷ drop_table "compilations" ∷ [];
}

abbrev pub add_compilations_duration_s : Migration
add_compilations_duration_s = record {
  revision = "46946a54cc08";
  down_revision = some "8e8cb7d9c562";
  upgrade = add_column "compilations" (column "duration_s" float true none) ∷ [];
  downgrade = drop_column "compilations" "duration_s" ∷ [];
}

abbrev pub add_compilations_mix_clip_audio : Migration
add_compilations_mix_clip_audio = record {
  revision = "730bc015c129";
  down_revision = some "46946a54cc08";
  upgrade =
      add_column "compilations" (column "mix_clip_audio" boolean false (some "false"))
      ∷ add_column "compilations" (column "clip_audio_volume" float false (some "0.4"))
      ∷ [];
  downgrade =
      drop_column "compilations" "clip_audio_volume"
      ∷ drop_column "compilations" "mix_clip_audio"
      ∷ [];
}

-- The files of the directory, in the order of their names.
abbrev pub versions : List Migration
versions =
    initial_schema ∷ create_soundtracks_table ∷ add_compilations_duration_s
    ∷ add_compilations_mix_clip_audio ∷ add_clips_indexes ∷ add_compilations_tables
    ∷ create_clips_table ∷ add_clips_error_message ∷ []
