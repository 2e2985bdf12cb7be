-- ===== src/Serving/Audio.antt =====
-- The content type of a stored soundtrack.
use video_journal_be.Prelude.{
  ap, Option-cases, inl, inr, subst, sym, none, Option, ℕ, ◌+◌, ◌<◌, ◌≡◌, refl, ◌∙◌, true, false,
  some, [], ◌∷◌, ◌++◌, length, length-append, arith,
}
use video_journal_be.Errors.{Text, Result, ok, err, not_found}
use video_journal_be.Text.{codes, text_in, lower, lower_char}
use video_journal_be.Uuid.{uuid_text}
use video_journal_be.Uuid.Injective.{length-uuid_text}
use video_journal_be.Storage.Paths.{HasNoSlash}
use video_journal_be.Naming.{soundtrack_extensions, build_soundtrack_key}
use video_journal_be.Naming.Keys.{
  soundtrack, place, IsAsset, resolve-asset, file_name, file_name-IsName,
  split_all-build_soundtrack_key,
}
use video_journal_be.Naming.Extensions.{
  soundtrack_extensions-HasNoSlash, IsFreeOf, after_last-append, All-text_in,
}
use video_journal_be.Soundtracks.Names.{last_name-two}
use video_journal_be.Session.{World, Env}
use video_journal_be.Models.{Soundtrack}
use video_journal_be.Session.Rows.{find, find-id}
use video_journal_be.Session.Laws.{request_reads, path_of_lem}
use video_journal_be.Session.Consistent.{IsConsistent, IsConsistentSoundtrack, IsTable-find}
use video_journal_be.MediaResponse.{Response, build_media_response}
use video_journal_be.Storage.{read, resolve}
use video_journal_be.Soundtracks.{open_audio, get_soundtrack}
use video_journal_be.Serving.{
  cache_immutable, stream_audio, content_types, get_or, suffix, content_type_of,
}

-- The suffix of a UUID's file is its extension.
suffix-file_name :
    (u : ℕ) (tail : Text)
    → 0 < length tail
    → suffix (file_name u (b'.' ∷ tail)) (some tail) ≡ b'.' ∷ tail
unfolding suffix
suffix-file_name u tail h =
    let long : length (file_name u (b'.' ∷ tail)) ≡ 37 + length tail =
      omega (arith, length-append (uuid_text u) (b'.' ∷ tail), length-uuid_text u) in
    rw long (ground arith)

content_type_of-key :
    (u : ℕ) (tail : Text)
    → 0 < length tail
    → IsFreeOf b'.' tail
    → HasNoSlash (b'.' ∷ tail)
    → content_type_of (build_soundtrack_key u (b'.' ∷ tail))
      ≡ get_or (lower (b'.' ∷ tail)) (codes "audio/octet-stream") content_types
unfolding content_type_of
content_type_of-key u tail long dotless plain =
    rw
      (
        split_all-build_soundtrack_key u (b'.' ∷ tail) plain,
        last_name-two (codes "soundtracks") (file_name u (b'.' ∷ tail))
            (file_name-IsName u (b'.' ∷ tail)),
        after_last-append b'.' (uuid_text u) tail dotless,
        suffix-file_name u tail long,
      )
      refl

-- Each allowed extension has a content type of its own.
pub content_type_of-allowed :
    (u : ℕ) (ext : Text)
    → text_in ext soundtrack_extensions ≡ true
    → content_type_of (build_soundtrack_key u ext) ≡ get_or ext [] content_types
unfolding get_or lower lower_char
content_type_of-allowed u ext h =
    All-text_in (λ e. content_type_of (build_soundtrack_key u e) ≡ get_or e [] content_types) ext
      soundtrack_extensions
      (
        listed (codes "mp3") refl (ground arith) (ground arith),
        (
          listed (codes "m4a") refl (ground arith) (ground arith),
          (
            listed (codes "aac") refl (ground arith) (ground arith),
            (
              listed (codes "wav") refl (ground arith) (ground arith),
              (listed (codes "flac") refl (ground arith) (ground arith), tt),
            ),
          ),
        ),
      )
      h
  where
    listed :
        (tail : Text)
        → get_or (lower (b'.' ∷ tail)) (codes "audio/octet-stream") content_types
          ≡ get_or (b'.' ∷ tail) [] content_types
        → (0 < length tail) × IsFreeOf b'.' tail
        → HasNoSlash (b'.' ∷ tail)
        → content_type_of (build_soundtrack_key u (b'.' ∷ tail))
          ≡ get_or (b'.' ∷ tail) [] content_types
    listed tail same k plain = content_type_of-key u tail k.0 k.1 plain ∙ same

-- What `stream_audio` is to answer: NotFoundError without a row, and else the file at the place of the row's own key, which
-- names one extension, with the content type that is listed for that extension.
abbrev pub IsAudioAnswer :
    {F : Type 0}
    → Env F
    → World F
    → ℕ
    → Option Text
    → Option (Soundtrack F)
    → Result Response × World F
    → Type 0
IsAudioAnswer env w k range none answered =
    answered ≡ (err not_found, record w { working = w.committed; broken = false })
IsAudioAnswer env w k range (some s) answered =
    (ext : Text) × (text_in ext soundtrack_extensions ≡ true)
    × (s.key ≡ build_soundtrack_key k ext)
    × (answered ≡ (
      build_media_response (read (env.base ++ place (soundtrack k ext)) w.files)
          (get_or ext [] content_types) range cache_immutable,
      record w { working = w.committed; broken = false },
    ))

module _ {F : Type 0} (env : Env F) (w : World F) (consistent : IsConsistent w.committed)
    (granted : env.refuses_commit w.committed ≡ false) where
  audio_found :
      (k : ℕ) (range : Option Text) (s : Soundtrack F)
      → find (λ (r : Soundtrack F). r.id) k w.committed.soundtracks ≡ some s
      → IsAudioAnswer env w k range (some s) (stream_audio env k range w)
  unfolding stream_audio open_audio get_soundtrack
  audio_found k range s found =
      let id_of : Soundtrack F → ℕ = λ r. r.id in
      let start : World F = record w { working = w.committed; broken = false } in
      let h : IsConsistentSoundtrack s =
        IsTable-find id_of IsConsistentSoundtrack k w.committed.soundtracks consistent.soundtracks
          found in
      let (ext, allowed, key_is) = h.stored in
      let same : s.id ≡ k = find-id id_of k w.committed.soundtracks s found in
      let asset : IsAsset (soundtrack s.id ext) =
        (h.bound, soundtrack_extensions-HasNoSlash ext allowed) in
      let located : resolve env.base (build_soundtrack_key s.id ext)
          ≡ ok (env.base ++ place (soundtrack s.id ext)) =
        resolve-asset env.base (soundtrack s.id ext) asset in
      (
        ext,
        allowed,
        key_is ∙ ap (λ n. build_soundtrack_key n ext) same,
        request_reads env _ w _
            (rw
              (
                found,
                key_is,
                path_of_lem env (build_soundtrack_key s.id ext)
                    (env.base ++ place (soundtrack s.id ext)) start located,
                content_type_of-allowed s.id ext allowed,
                same,
              )
              refl)
            granted,
      )

  pub stream_audio_lem :
      (k : ℕ) (range : Option Text)
      → IsAudioAnswer env w k range
          (find (λ (r : Soundtrack F). r.id) k w.committed.soundtracks)
          (stream_audio env k range w)
  unfolding stream_audio open_audio get_soundtrack
  stream_audio_lem k range =
      elim (Option-cases (find (λ (r : Soundtrack F). r.id) k w.committed.soundtracks)) [
        | inl missing ↦ rw missing (request_reads env _ w _ (rw missing refl) granted)
        | inr (s, found) ↦
            subst (λ o. IsAudioAnswer env w k range o (stream_audio env k range w)) (sym found)
              (audio_found k range s found)
      ]
