-- ===== src/Clips/Service/Untimed.antt =====
-- A clip whose duration ffprobe does not tell.
use video_journal_be.Prelude.{ℕ, ◌≡◌, refl, true, none, some}
use video_journal_be.Errors.{Text, err, invalid_trim}
use video_journal_be.Ffprobe.{ProbeResult}
use video_journal_be.Session.{World, Env}
use video_journal_be.Session.Laws.{request_raised}
use video_journal_be.Clips.Service.{
  false, ClipUpdate, new_clip, updated, validate_trim, trim_error, update_clip, patch_clip,
  is_valid_update, is_not_negative,
}
use video_journal_be.Clips.Service.Update.{row, get_clip-some}

module _ {F : Type 0} (env : Env F) where
  -- A PATCH that only moves a clip.
  abbrev pub move_to : F → ClipUpdate F
  move_to x = record { trim_in_s = none; trim_out_s = none; sort_index = some x }

  -- A clip that was created without a known duration cannot be moved: a PATCH of the sort index alone ends in
  -- InvalidTrimError, since the clip's own trim window, from 0 to 0, is invalid; nothing changes. Zero is at most zero
  -- among the floats.
  pub move_untimed :
      (clip_id now : ℕ) (key : Text) (result : ProbeResult F) (recorded_at : ℕ) (sort_index x : F)
      (w : World F)
      → env.ops.floats.le (env.ops.floats.of_ℕ 0) (env.ops.floats.of_ℕ 0) ≡ true
      → result.duration_s ≡ none
      → row env clip_id (record w { working = w.committed; broken = false })
        ≡ some (new_clip env clip_id now key result recorded_at sort_index)
      → patch_clip env clip_id (move_to x) w
        ≡ (err invalid_trim, record w { working = w.committed; broken = false })
  unfolding patch_clip update_clip validate_trim trim_error updated new_clip is_valid_update
      is_not_negative
  move_untimed clip_id now key result recorded_at sort_index x w zero untimed found =
      let start : World F = record w { working = w.committed; broken = false } in
      let refused : update_clip env clip_id (move_to x) start ≡ (err invalid_trim, start) =
        rw (get_clip-some env clip_id start found, untimed, zero) refl in
      request_raised env (update_clip env clip_id (move_to x)) w refused
