-- ===== src/Storage/Tests.antt =====
-- The storage at the media root of the samples.
use video_journal_be.Storage.Backend.{IsLawful, local_storage, IsBuiltKey, local_storage-IsLawful}
use video_journal_be.Storage.Directories.{IsStored}
use video_journal_be.Samples.{media_root}

local_storage-IsLawful_example :
    IsLawful (local_storage media_root) IsBuiltKey (IsStored media_root)
local_storage-IsLawful_example = local_storage-IsLawful media_root
