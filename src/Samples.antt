-- ===== src/Samples.antt =====
-- A small instance of what the model takes as parameters, and a world, for the tests.
use video_journal_be.Prelude.{
  ◌≡◌, ◌⊎◌, inl, inr, Bool-cases, arith, ℕ, ◌+◌, ◌-◌, ◌*◌, ◌/◌, pos, pos_part, true, false, none,
  some, List, [], ◌∷◌, ltb, leb,
}
use video_journal_be.Errors.{ok}
use video_journal_be.Text.{codes, decimal}
use video_journal_be.Float.{IsOrdered, FloatOps}
use video_journal_be.Models.{Clip, ready, Compilation, pending, Soundtrack, Tables}
use video_journal_be.Ffprobe.{obj, end, field, arr, cons, nil, str}
use video_journal_be.Ffmpeg.{exited}
use video_journal_be.Storage.{FilePath}
use video_journal_be.Progress.{Registry}
use video_journal_be.Session.{World, Env}
use video_journal_be.Naming.{build_original_key, build_normalized_key}

-- The sum of a list.
abbrev total : List ℕ → ℕ
total [] = 0
total (n ∷ ns) = n + total ns

-- Whole numbers stand for floats.
abbrev pub whole_floats : FloatOps ℕ
whole_floats = record {
  of_ℕ = λ n. n;
  of_ℤ = λ z. pos_part z;
  add = λ a b. a + b;
  sub = λ a b. a - b;
  mul = λ a b. a * b;
  div = λ a b. a / b;
  sum = total;
  lt = ltb;
  le = leb;
  floor = λ n. some (pos n);
  trunc = λ n. some (pos n);
  parse = λ t. none;
  show = decimal;
  show_4f = decimal;
}

abbrev pub media_root : FilePath
media_root = codes "data" ∷ codes "media" ∷ []

-- ffprobe finds an object without a format, ffmpeg writes one byte, and the database refuses nothing.
abbrev pub tools : Env ℕ
tools = record {
  ops = record { floats = whole_floats; repr = λ j. []; fromisoformat = λ t. none };
  base = media_root;
  max_upload_bytes = 4;
  refuses = λ c t. false;
  refuses_commit = λ t. false;
  run_ffprobe = λ content. ok (some (obj end));
  mtime = λ p. none;
  run_ffmpeg = λ args files temps. ok (7 ∷ []);
  run_process = λ args files temps. record {
    stdout = codes "out_time_us=1000000\n" ∷ [];
    stderr = [];
    exit = exited 0;
    output = some (9 ∷ []);
  };
}

-- ffprobe finds a film with sound.
abbrev pub probing : Env ℕ
probing = record tools {
  run_ffprobe = λ content. ok (
      some (
        obj (
          field "streams"
            (arr (
              cons (obj (field "codec_type" (str (codes "video")) end))
                (cons (obj (field "codec_type" (str (codes "audio")) end)) nil)))
            end)));
}

-- A database that refuses every statement.
abbrev pub refusing : Env ℕ
refusing = record tools { refuses = λ c t. true }

abbrev pub clip_one : Clip ℕ
clip_one = record {
  id = 1;
  original_key = build_original_key 1 (codes ".mov");
  normalized_key = some (build_normalized_key 1);
  filmstrip_key = none;
  duration_s = some 10;
  width = none;
  height = none;
  codec_name = none;
  recorded_at = some 5;
  uploaded_at = 6;
  trim_in_s = some 0;
  trim_out_s = some 10;
  sort_index = 1000;
  status = ready;
  error_message = none;
}

abbrev pub soundtrack_two : Soundtrack ℕ
soundtrack_two = record {
  id = 2;
  key = codes "soundtracks/x.mp3";
  title = [];
  duration_s = none;
  uploaded_at = 0;
}

abbrev pub compilation_three : Compilation ℕ
compilation_three = record {
  id = 3;
  soundtrack_id = some 2;
  status = pending;
  output_key = none;
  duration_s = none;
  mix_clip_audio = false;
  clip_audio_volume = 0;
  created_at = 7;
  completed_at = none;
  error = none;
}

abbrev pub no_renders : Registry
no_renders = record { channels = []; terminal = []; scheduled = []; queues = []; next_queue = 0 }

abbrev pub stored : Tables ℕ
stored = record {
  clips = clip_one ∷ [];
  compilations = compilation_three ∷ [];
  compilation_clips =
      record {
        compilation_id = 3;
        clip_id = 1;
        position = 0;
        trim_in_s = some 0;
        trim_out_s = some 10;
      }
      ∷ [];
  soundtracks = soundtrack_two ∷ [];
  items = [];
}

abbrev pub journal : World ℕ
journal = record {
  committed = stored;
  working = stored;
  broken = false;
  files = [];
  temps = [];
  progress = no_renders;
}

pub whole_floats-IsOrdered : IsOrdered whole_floats
whole_floats-IsOrdered = record {
  lt_irrefl = λ a. ground arith;
  lt_trans = λ a b c h k. ground arith;
  lt_cotrans = λ a b c h. ltb-cases a b c h;
}
  where
    ltb-cases : (a b c : ℕ) → ltb a c ≡ true → (ltb a b ≡ true) ⊎ (ltb b c ≡ true)
    ltb-cases a b c h = elim (Bool-cases (ltb a b)) [
      | inl less ↦ inl less
      | inr more ↦ inr (ground arith)
    ]
