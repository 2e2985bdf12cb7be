-- ===== src/System/Statuses.antt =====
-- The statuses that the routes answer when they fail: core/exception_handlers.py on what each handler raises.
use video_journal_be.Prelude.{ℕ, ◌≡◌, true, Option, none, some, List, [], ◌∷◌}
use video_journal_be.Errors.{Result, ok, err, status_code}
use video_journal_be.Errors.Listed.{member}
use video_journal_be.Session.{World, Env}
use video_journal_be.Clips.Service.{post_clip, patch_clip, remove_clip}
use video_journal_be.Compilations.Service.{post_compilation, remove_compilation}
use video_journal_be.Soundtracks.{post_soundtrack, remove_soundtrack}
use video_journal_be.Items.{post_item, patch_item, remove_item}
use video_journal_be.Serving.{
  get_clip_video, get_clip_filmstrip, get_compilation_video, stream_audio,
}
use video_journal_be.System.{
  Event, clip_posted, clip_patched, clip_removed, clip_normalized, compilation_posted,
  compilation_removed, compilation_rendered, soundtrack_posted, soundtrack_removed, item_posted,
  item_patched, item_removed, video_read, filmstrip_read, output_read, audio_read,
}

-- `app_error_handler`: the status of an error, none where the handler has returned.
abbrev pub app_error_handler : {A : Type 0} → Result A → Option ℕ
app_error_handler (ok a) = none
app_error_handler (err e) = some (status_code e)

-- The status of a failed request; a background task answers nothing.
abbrev pub error_status : {F : Type 0} → Env F → Event F → World F → Option ℕ
error_status env (clip_posted k now upload) w = app_error_handler (post_clip env k now upload w).0
error_status env (clip_patched k u) w = app_error_handler (patch_clip env k u w).0
error_status env (clip_removed k) w = app_error_handler (remove_clip env k w).0
error_status env (clip_normalized tmp strip k) w = none
error_status env (compilation_posted k now data_in) w =
    app_error_handler (post_compilation env k now data_in w).0
error_status env (compilation_removed k) w = app_error_handler (remove_compilation env k w).0
error_status env (compilation_rendered dst now k) w = none
error_status env (soundtrack_posted k now upload) w =
    app_error_handler (post_soundtrack env k now upload w).0
error_status env (soundtrack_removed k) w = app_error_handler (remove_soundtrack env k w).0
error_status env (item_posted k now data_in) w = app_error_handler (post_item env k now data_in w).0
error_status env (item_patched k now u) w = app_error_handler (patch_item env now k u w).0
error_status env (item_removed k) w = app_error_handler (remove_item env k w).0
error_status env (video_read k range) w = app_error_handler (get_clip_video env k range w).0
error_status env (filmstrip_read k range) w = app_error_handler (get_clip_filmstrip env k range w).0
error_status env (output_read k range) w = app_error_handler (get_compilation_video env k range w).0
error_status env (audio_read k range) w = app_error_handler (stream_audio env k range w).0

-- What a route may answer, beside 500.
abbrev pub expected_statuses : {F : Type 0} → Event F → List ℕ
expected_statuses (clip_posted k now upload) = 413 ∷ 415 ∷ 422 ∷ []
expected_statuses (clip_patched k u) = 404 ∷ 422 ∷ []
expected_statuses (clip_removed k) = 404 ∷ []
expected_statuses (clip_normalized tmp strip k) = []
expected_statuses (compilation_posted k now data_in) = 404 ∷ 409 ∷ 422 ∷ []
expected_statuses (compilation_removed k) = 404 ∷ 409 ∷ []
expected_statuses (compilation_rendered dst now k) = []
expected_statuses (soundtrack_posted k now upload) = 413 ∷ 415 ∷ 422 ∷ []
expected_statuses (soundtrack_removed k) = 404 ∷ []
expected_statuses (item_posted k now data_in) = 422 ∷ []
expected_statuses (item_patched k now u) = 404 ∷ 422 ∷ []
expected_statuses (item_removed k) = 404 ∷ []
expected_statuses (video_read k range) = 404 ∷ 416 ∷ []
expected_statuses (filmstrip_read k range) = 404 ∷ 416 ∷ []
expected_statuses (output_read k range) = 404 ∷ 416 ∷ []
expected_statuses (audio_read k range) = 404 ∷ 416 ∷ []

abbrev pub IsExpected : List ℕ → Option ℕ → Type 0
IsExpected statuses none = Unit
IsExpected statuses (some n) = member n (500 ∷ statuses) ≡ true
