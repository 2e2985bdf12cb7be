-- ===== src/Ffprobe/Refusals.antt =====
-- Reading ffprobe's output fails with FfprobeError, or with an exception that is no AppError.
use video_journal_be.Prelude.{ℕ, refl, Option, none, some, List}
use video_journal_be.Errors.{ffprobe_error, unexpected}
use video_journal_be.Errors.Listed.{
  IsListed, HasListed, HasListed-ok, HasListed-err, HasListed-bind, HasListed-or_raise,
}
use video_journal_be.Text.{codes, int_of}
use video_journal_be.Ffprobe.{
  Json, null, bool, int, float, str, arr, obj, Fields, ProbeOps, get, find_stream, rotation_source,
  rotation_of, parse_rotation, size_of, items_of, py_str, parse_dict, parse_output,
  parse_audio_dict, parse_audio_output,
}

module _ (statuses : List ℕ) (listed : IsListed statuses ffprobe_error) {F : Type 0}
    (ops : ProbeOps F) where
  items_of-HasListed : (v : Option (Json F)) → HasListed statuses (items_of ops v)
  unfolding items_of
  items_of-HasListed none = HasListed-err ffprobe_error listed
  items_of-HasListed (some (arr l)) = HasListed-ok l
  items_of-HasListed (some null) = HasListed-err ffprobe_error listed
  items_of-HasListed (some (bool b)) = HasListed-err ffprobe_error listed
  items_of-HasListed (some (int z)) = HasListed-err ffprobe_error listed
  items_of-HasListed (some (float x)) = HasListed-err ffprobe_error listed
  items_of-HasListed (some (str t)) = HasListed-err ffprobe_error listed
  items_of-HasListed (some (obj d)) = HasListed-err ffprobe_error listed

  rotation_of-HasListed : (v : Option (Json F)) → HasListed statuses (rotation_of ops v)
  unfolding rotation_of
  rotation_of-HasListed none = HasListed-ok 0
  rotation_of-HasListed (some raw) =
      HasListed-bind (HasListed-or_raise (ops.floats.parse (py_str ops raw)) unexpected refl) (λ x.
        HasListed-bind (HasListed-or_raise (ops.floats.trunc x) unexpected refl)
          (λ z. HasListed-ok _))

  size_of-HasListed : (v : Option (Json F)) → HasListed statuses (size_of ops v)
  unfolding size_of
  size_of-HasListed none = HasListed-ok none
  size_of-HasListed (some raw) =
      HasListed-bind (HasListed-or_raise (int_of (py_str ops raw)) unexpected refl)
        (λ z. HasListed-ok (some z))

  parse_dict-HasListed : (d : Fields F) → HasListed statuses (parse_dict ops d)
  unfolding parse_dict parse_rotation
  parse_dict-HasListed d = HasListed-bind (items_of-HasListed (get "streams" d)) (λ streams.
      HasListed-bind (HasListed-or_raise (find_stream (codes "video") streams) ffprobe_error listed)
        (λ video. HasListed-bind (size_of-HasListed (get "width" video)) (λ width.
          HasListed-bind (size_of-HasListed (get "height" video)) (λ height.
            HasListed-bind (rotation_of-HasListed (rotation_source video))
              (λ rotation. HasListed-ok _)))))

  pub parse_output-HasListed : (v : Option (Json F)) → HasListed statuses (parse_output ops v)
  unfolding parse_output
  parse_output-HasListed none = HasListed-err ffprobe_error listed
  parse_output-HasListed (some (obj d)) = parse_dict-HasListed d
  parse_output-HasListed (some null) = HasListed-err unexpected refl
  parse_output-HasListed (some (bool b)) = HasListed-err unexpected refl
  parse_output-HasListed (some (int z)) = HasListed-err unexpected refl
  parse_output-HasListed (some (float x)) = HasListed-err unexpected refl
  parse_output-HasListed (some (str t)) = HasListed-err unexpected refl
  parse_output-HasListed (some (arr l)) = HasListed-err unexpected refl

  parse_audio_dict-HasListed : (d : Fields F) → HasListed statuses (parse_audio_dict ops d)
  unfolding parse_audio_dict
  parse_audio_dict-HasListed d = HasListed-bind (items_of-HasListed (get "streams" d)) (λ streams.
      HasListed-bind (HasListed-or_raise (find_stream (codes "audio") streams) ffprobe_error listed)
        (λ audio. HasListed-ok _))

  pub parse_audio_output-HasListed :
      (v : Option (Json F)) → HasListed statuses (parse_audio_output ops v)
  unfolding parse_audio_output
  parse_audio_output-HasListed none = HasListed-err ffprobe_error listed
  parse_audio_output-HasListed (some (obj d)) = parse_audio_dict-HasListed d
  parse_audio_output-HasListed (some null) = HasListed-err unexpected refl
  parse_audio_output-HasListed (some (bool b)) = HasListed-err unexpected refl
  parse_audio_output-HasListed (some (int z)) = HasListed-err unexpected refl
  parse_audio_output-HasListed (some (float x)) = HasListed-err unexpected refl
  parse_audio_output-HasListed (some (str t)) = HasListed-err unexpected refl
  parse_audio_output-HasListed (some (arr l)) = HasListed-err unexpected refl
