-- ===== src/Ffprobe.antt =====
-- src/app/media/ffprobe.py: what is read from ffprobe's JSON. `json.loads` gives a value of `Json`, whose
-- objects are Python dicts; running ffprobe and decoding its output are parameters.
pub mod Refusals
use text.Mathlib.Text.{◌==◌ as str_eq}
use video_journal_be.Prelude.{
  ℕ, ◌+◌, ◌%◌, ℤ, pos_part, neg_part, Bool, false, ◌||◌, Option, none, some, String, [], ◌∷◌, ◌++◌,
  ◌==◌, if◌then◌else◌,
}
use video_journal_be.Errors.{Text, Result, ok, err, ffprobe_error, unexpected, ◌>>=◌, or_raise}
use video_journal_be.Text.{codes, text_eq, int_of, decimal_ℤ}
use video_journal_be.Float.{FloatOps}

mutual
  pub data Json (F : Type 0) : Type 0 where
    null : Json F
    bool : Bool → Json F
    int : ℤ → Json F
    float : F → Json F
    str : Text → Json F
    arr : Items F → Json F
    obj : Fields F → Json F

  pub data Items (F : Type 0) : Type 0 where
    nil : Items F
    cons : Json F → Items F → Items F

  pub data Fields (F : Type 0) : Type 0 where
    end : Fields F
    field : String → Json F → Fields F → Fields F

-- What the module calls in the standard library and outside: how `str` writes a list, a dict or None,
-- and `datetime.fromisoformat`, whose result is an instant (`none` is ValueError; a naive reading counts as
-- UTC, which is what the code makes of it).
pub record ProbeOps (F : Type 0) : Type 0 where
  pub floats : FloatOps F
  pub repr : Json F → Text
  pub fromisoformat : Text → Option ℕ

pub record ProbeResult (F : Type 0) : Type 0 where
  pub duration_s : Option F
  pub width : Option ℤ
  pub height : Option ℤ
  pub codec_name : Option Text
  pub recorded_at : Option ℕ

pub record AudioProbeResult (F : Type 0) : Type 0 where
  pub duration_s : Option F
  pub title : Option Text

module _ {F : Type 0} where
  field_of : String → Fields F → Option (Json F)
  field_of k end = none
  field_of k (field j v fs) = if str_eq j k then some v else field_of k fs

  -- `d.get(k)` of a dict; a missing key and a null are both None.
  not_null : Option (Json F) → Option (Json F)
  not_null none = none
  not_null (some null) = none
  not_null (some (bool b)) = some (bool b)
  not_null (some (int z)) = some (int z)
  not_null (some (float x)) = some (float x)
  not_null (some (str t)) = some (str t)
  not_null (some (arr l)) = some (arr l)
  not_null (some (obj d)) = some (obj d)

  pub get : String → Fields F → Option (Json F)
  unfolding field_of not_null
  get k d = not_null (field_of k d)

  -- `isinstance(v, dict)`, else the empty dict.
  pub dict_or_empty : Option (Json F) → Fields F
  dict_or_empty (some (obj d)) = d
  dict_or_empty _ = end

  -- Whether `d.get(k) == text`.
  is_text : Text → Option (Json F) → Bool
  is_text t (some (str s)) = text_eq s t
  is_text t _ = false

  -- The first dict of a list whose `codec_type` is `kind`.
  pub find_stream : Text → Items F → Option (Fields F)
  unfolding is_text get
  find_stream kind nil = none
  find_stream kind (cons (obj d) l) =
      if is_text kind (get "codec_type" d) then some d else find_stream kind l
  find_stream kind (cons _ l) = find_stream kind l

  or_else : Option (Json F) → Option (Json F) → Option (Json F)
  or_else none other = other
  or_else (some v) other = some v

  -- The entry for rotation in the first `Display Matrix` that has one.
  find_rotation : Items F → Option (Json F)
  unfolding is_text get or_else
  find_rotation nil = none
  find_rotation (cons (obj d) l) =
      let rest = find_rotation l in
      if is_text (codes "Display Matrix") (get "side_data_type" d)
      then or_else (get "rotation" d) rest
      else rest
  find_rotation (cons _ l) = find_rotation l

  list_rotation : Option (Json F) → Option (Json F)
  unfolding find_rotation
  list_rotation (some (arr l)) = find_rotation l
  list_rotation _ = none

  -- What `_parse_rotation` reads: the side data first, then the tag of older versions.
  pub rotation_source : Fields F → Option (Json F)
  unfolding list_rotation dict_or_empty get or_else
  rotation_source stream =
      or_else (list_rotation (get "side_data_list" stream))
        (get "rotate" (dict_or_empty (get "tags" stream)))

module _ {F : Type 0} (ops : ProbeOps F) where
  open ops use {floats, repr, fromisoformat}

  -- `str(v)`
  pub py_str : Json F → Text
  py_str (str t) = t
  py_str (int z) = decimal_ℤ z
  py_str (bool b) = if b then codes "True" else codes "False"
  py_str (float x) = floats.show x
  py_str null = repr null
  py_str (arr l) = repr (arr l)
  py_str (obj d) = repr (obj d)

  -- `abs(int(float(str(raw)))) % 360`; its ValueError is caught nowhere.
  pub rotation_of : Option (Json F) → Result ℕ
  unfolding py_str
  rotation_of none = ok 0
  rotation_of (some raw) = do
    x ← or_raise (floats.parse (py_str raw)) unexpected
    z ← or_raise (floats.trunc x) unexpected
    ok ((pos_part z + neg_part z) % 360)

  pub parse_rotation : Fields F → Result ℕ
  unfolding rotation_of rotation_source
  parse_rotation stream = rotation_of (rotation_source stream)

  -- `raw_str.replace("Z", "+00:00")`
  replace_z : Text → Text
  replace_z [] = []
  replace_z (c ∷ s) =
      let rest = replace_z s in if c == b'Z' then codes "+00:00" ++ rest else c ∷ rest

  candidate_time : Option (Json F) → Option ℕ
  unfolding py_str replace_z
  candidate_time none = none
  candidate_time (some raw) = fromisoformat (replace_z (py_str raw))

  first_time : Option ℕ → Option ℕ → Option ℕ
  first_time none other = other
  first_time (some t) other = some t

  -- The first of the three tags that holds a timestamp.
  pub parse_recorded_at : Fields F → Fields F → Option ℕ
  unfolding candidate_time first_time dict_or_empty
  parse_recorded_at fmt stream =
      first_time
        (candidate_time (get "com.apple.quicktime.creationdate" (dict_or_empty (get "tags" fmt))))
        (first_time (candidate_time (get "creation_time" (dict_or_empty (get "tags" fmt))))
          (candidate_time (get "creation_time" (dict_or_empty (get "tags" stream)))))

  duration_of : Option (Json F) → Option F
  unfolding py_str
  duration_of none = none
  duration_of (some raw) = floats.parse (py_str raw)

  -- `int(str(raw)) if raw is not None else None`; its ValueError is caught nowhere.
  pub size_of : Option (Json F) → Result (Option ℤ)
  unfolding py_str
  size_of none = ok none
  size_of (some raw) = do z ← or_raise (int_of (py_str raw)) unexpected; ok (some z)

  text_of : Option (Json F) → Option Text
  unfolding py_str
  text_of none = none
  text_of (some raw) = some (py_str raw)

  -- The swap of the sizes, where both are known.
  turn : ℕ → Option ℤ → Option ℤ → Option ℤ × Option ℤ
  turn rotation (some w) (some h) =
      if rotation == 90 || rotation == 270 then (some h, some w) else (some w, some h)
  turn rotation none h = (none, h)
  turn rotation (some w) none = (some w, none)

  pub items_of : Option (Json F) → Result (Items F)
  items_of (some (arr l)) = ok l
  items_of _ = err ffprobe_error

  pub parse_dict : Fields F → Result (ProbeResult F)
  unfolding items_of parse_rotation size_of turn duration_of text_of parse_recorded_at dict_or_empty
  parse_dict d = do
    streams ← items_of (get "streams" d)
    video ← or_raise (find_stream (codes "video") streams) ffprobe_error
    let fmt = dict_or_empty (get "format" d)
    width ← size_of (get "width" video)
    height ← size_of (get "height" video)
    rotation ← parse_rotation video
    ok (record {
      duration_s = duration_of (get "duration" fmt);
      width = (turn rotation width height).0;
      height = (turn rotation width height).1;
      codec_name = text_of (get "codec_name" video);
      recorded_at = parse_recorded_at fmt video;
    })

  -- `none` is output that is no JSON; a value that is no dict has no `get`.
  pub parse_output : Option (Json F) → Result (ProbeResult F)
  unfolding parse_dict
  parse_output none = err ffprobe_error
  parse_output (some (obj d)) = parse_dict d
  parse_output (some _) = err unexpected

  -- The title of the format, else of the stream.
  title_of : Fields F → Fields F → Option Text
  unfolding dict_or_empty text_of or_else
  title_of fmt audio = text_of (
      or_else (get "title" (dict_or_empty (get "tags" fmt)))
        (get "title" (dict_or_empty (get "tags" audio))))

  pub parse_audio_dict : Fields F → Result (AudioProbeResult F)
  unfolding items_of duration_of title_of dict_or_empty
  parse_audio_dict d = do
    streams ← items_of (get "streams" d)
    audio ← or_raise (find_stream (codes "audio") streams) ffprobe_error
    let fmt = dict_or_empty (get "format" d)
    ok (record { duration_s = duration_of (get "duration" fmt); title = title_of fmt audio })

  pub parse_audio_output : Option (Json F) → Result (AudioProbeResult F)
  unfolding parse_audio_dict
  parse_audio_output none = err ffprobe_error
  parse_audio_output (some (obj d)) = parse_audio_dict d
  parse_audio_output (some _) = err unexpected
