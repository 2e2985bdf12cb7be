-- ===== src/Lib.antt =====
-- The backend of a personal video journal: clips are uploaded, probed and transcoded, and compilations of the
-- ready clips are rendered with a soundtrack. HTTP handlers run in a database session each; transcoding and
-- rendering run in the background, and a render's progress is streamed to its clients.
--
-- Files and what they model (paths from the repository's root):
--   Prelude, Errors, Text, Float, Uuid: shared names and lemmas; the errors of src/app/common/exceptions.py;
--     Python's str, int and UUID texts; floats as a parameter, with the laws of their order where a theorem needs them.
--   MediaResponse: src/app/common/media_response.py, the Range header and the streamed slice.
--   Storage: src/app/storage, keys and the file system as an association list from paths to bytes (`Backend` the
--     contract of base.py, `Directories` why no key of the program names a directory).
--   Naming: the utils.py of the domains, extensions and storage keys.
--   Ffprobe, Media, Ffmpeg: src/app/media, what is read from ffprobe's JSON, the command lines, the lines of a
--     running ffmpeg. The processes themselves are parameters of `Env`.
--   Models, Session: the rows and tables of the domains, src/app/db/session.py and the repositories' flushes. A
--     method is an action on the `World`: the committed and the working tables, the files, the temporary files
--     and the registry of renders. `Env` may refuse any statement that writes, and any commit.
--   Uploads, Clips: src/app/domains/clips (`Queries` the repository, `Service` the request side, `Processing` the
--     background task). `request` is the session of a handler.
--   Progress: src/app/domains/compilations/progress.py and the event stream of its router.py (`Delivery` the event
--     loop, `Clients` the interleavings, `Ending` the end of a render).
--   Compilations: src/app/domains/compilations (`Service` the request side, `Rendering` the background task).
--   Soundtracks, Items: src/app/domains/soundtracks and items, on the pattern of the clips.
--   Serving: the routes that answer with a file, which compose the services, the storage and MediaResponse.
--   Usage: src/app/domains/storage, the bytes stored per kind.
--   System: src/app/api/router.py, all requests and background tasks as events on the world, and what holds of every
--     world they lead to. Each component's module named Consistent shows that its handlers keep the invariant, which
--     Session/Consistent states; Session/Keeping has the rules by which they are composed.
--   Migrations: alembic/versions as scripts of statements, and src/app/db/migrations.py. The database and Alembic's
--     choice of the scripts are parameters.
--   Samples and the modules named Tests: concrete instances and runs.
--
-- Bounds and fuel: the loop of an upload runs on the length of its content plus one, that of a streamed range on
-- the number of bytes asked for, and a number is printed on itself plus one; each round uses one of them up, and the
-- theorems on these loops hold with that fuel. Integers are Python's, without bound. UUIDs are below 2 ^ 128.
--
-- Not modelled: errors of SELECT statements and of the disk (a full disk, missing rights, a directory where a file is
-- wanted), so the model has no path on which a query, `save` or `delete` of an accepted key fails by itself. Bodies
-- and paths that do not have the declared types, which FastAPI answers with 422 before a handler; the bounds of
-- Field are modelled. FastAPI's wiring, settings, logging and middleware, the engine and its pragmas, alembic/env.py; what
-- ffmpeg and ffprobe do.
-- Two tasks do not interleave within one action: a handler is one step, except for the event stream.
-- The case of letters outside ASCII is not lowered, since no allowed extension has any.

pub mod Prelude
pub mod Errors
pub mod Text
pub mod Float
pub mod Uuid
pub mod Models
pub mod Storage
pub mod Naming
pub mod Ffprobe
pub mod Media
pub mod Ffmpeg
pub mod Uploads
pub mod Progress
pub mod Session
pub mod Clips
pub mod Compilations
pub mod Soundtracks
pub mod Items
pub mod Serving
pub mod Usage
pub mod System
pub mod Migrations
pub mod MediaResponse
pub mod Samples
