-- ===== src/Uploads.antt =====
-- `_iter_upload` of domains/clips/service.py and domains/soundtracks/service.py: an upload as a stream of
-- chunks that is cut off with an error when it grows too large.
pub mod Limit
use video_journal_be.Prelude.{
  ℕ, zero, suc, ◌+◌, Option, List, [], ◌∷◌, ltb, length, take, drop, ◌==◌, if◌then◌else◌,
}
use video_journal_be.Errors.{Text, Bytes, ok, err, upload_too_large}
use video_journal_be.Storage.{Stream}

-- `UploadFile`, of which the program reads the name and the content.
pub record Upload : Type 0 where
  pub filename : Option Text
  pub content : Bytes

-- `_CHUNK_SIZE`, 1 MiB.
abbrev pub upload_chunk_size : ℕ
upload_chunk_size = 1048576

abbrev yield_chunk : Bytes → Stream → Stream
yield_chunk chunk s = record s { chunks = chunk ∷ s.chunks }

-- The rounds of the loop; a round that goes on reads at least one byte.
pub upload_loop : ℕ → ℕ → ℕ → ℕ → Bytes → Stream
upload_loop zero size max_bytes total content = record { chunks = []; ending = ok tt }
upload_loop (suc fuel) size max_bytes total content =
    let chunk = take size content in
    let rest = upload_loop fuel size max_bytes (total + length chunk) (drop size content) in
    if length chunk == 0
    then record { chunks = []; ending = ok tt }
    else if ltb max_bytes (total + length chunk)
    then record { chunks = []; ending = err upload_too_large }
    else yield_chunk chunk rest

pub iter_upload : ℕ → Upload → Stream
unfolding upload_loop
iter_upload max_bytes upload =
    upload_loop (suc (length upload.content)) upload_chunk_size max_bytes 0 upload.content
