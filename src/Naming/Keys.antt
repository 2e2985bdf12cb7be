-- ===== src/Naming/Keys.antt =====
-- The storage keys: where they lie, and that no two coincide.
use video_journal_be.Prelude.{
  ℕ, ◌≡◌, refl, false, [], ◌∷◌, ◌++◌, ◌==◌, ◌<◌, ◌^◌, arith, All, zero, suc, ◌/◌, ◌%◌, ap, ap₂, sym,
  ◌∙◌, length, length-append,
}
use video_journal_be.Errors.{Text, ok}
use video_journal_be.Text.{codes}
use video_journal_be.Text.Laws.{All-append}
use video_journal_be.Uuid.{uuid_text, hex, hex_digit}
use video_journal_be.Uuid.Injective.{uuid_text-injective, length-uuid_text, append-injective}
use video_journal_be.Storage.{FilePath, resolve, split_all}
use video_journal_be.Storage.Paths.{IsName, HasNoSlash, join, resolve-join, split_all-join}
use video_journal_be.Naming.{
  build_original_key, build_normalized_key, build_filmstrip_key, build_soundtrack_key,
  build_output_key,
}

hex-HasNoSlash : (w n : ℕ) → HasNoSlash (hex w n)
unfolding hex
hex-HasNoSlash zero n = tt
hex-HasNoSlash (suc w) n =
    All-append (λ c. (c == b'/') ≡ false) (hex w (n / 16)) (hex_digit (n % 16) ∷ [])
      (hex-HasNoSlash w (n / 16)) (ground arith, tt)

dashed-HasNoSlash : (s t : Text) → HasNoSlash s → HasNoSlash t → HasNoSlash (s ++ b'-' ∷ t)
dashed-HasNoSlash s t h k = All-append (λ c. (c == b'/') ≡ false) s (b'-' ∷ t) h (refl, k)

uuid_text-HasNoSlash : (u : ℕ) → HasNoSlash (uuid_text u)
unfolding uuid_text
uuid_text-HasNoSlash u =
    let d : Text = hex 4 (u / 2 ^ 48) ++ b'-' ∷ hex 12 u in
    let c : Text = hex 4 (u / 2 ^ 64) ++ b'-' ∷ d in
    let b : Text = hex 4 (u / 2 ^ 80) ++ b'-' ∷ c in
    group 8 (u / 2 ^ 96) b (
      group 4 (u / 2 ^ 80) c
        (group 4 (u / 2 ^ 64) d (group 4 (u / 2 ^ 48) (hex 12 u) (hex-HasNoSlash 12 u))))
  where
    group : (w n : ℕ) (t : Text) → HasNoSlash t → HasNoSlash (hex w n ++ b'-' ∷ t)
    group w n t k = dashed-HasNoSlash (hex w n) t (hex-HasNoSlash w n) k

long-IsName : (t : Text) → 2 < length t → IsName t
long-IsName [] h = absurd (omega arith)
long-IsName (a ∷ []) h = absurd (omega arith)
long-IsName (a ∷ b ∷ []) h = absurd (omega arith)
long-IsName (a ∷ b ∷ c ∷ t) h = (refl, ground arith, ground arith)

-- The file of a UUID with an extension.
abbrev pub file_name : ℕ → Text → Text
file_name u ext = uuid_text u ++ ext

pub file_name-IsName : (u : ℕ) (ext : Text) → IsName (file_name u ext)
file_name-IsName u ext =
    long-IsName (file_name u ext)
      (omega (arith, length-append (uuid_text u) ext, length-uuid_text u))

file_name-HasNoSlash : (u : ℕ) (ext : Text) → HasNoSlash ext → HasNoSlash (file_name u ext)
file_name-HasNoSlash u ext h =
    All-append (λ c. (c == b'/') ≡ false) (uuid_text u) ext (uuid_text-HasNoSlash u) h

-- What the program stores, each with the key that it builds and the place under the base directory.
pub data Asset : Type 0 where
  original soundtrack : ℕ → Text → Asset
  normalized filmstrip output : ℕ → Asset

abbrev pub asset_key : Asset → Text
asset_key (original u ext) = build_original_key u ext
asset_key (soundtrack u ext) = build_soundtrack_key u ext
asset_key (normalized u) = build_normalized_key u
asset_key (filmstrip u) = build_filmstrip_key u
asset_key (output u) = build_output_key u

abbrev pub place : Asset → FilePath
place (original u ext) = codes "clips" ∷ codes "original" ∷ file_name u ext ∷ []
place (soundtrack u ext) = codes "soundtracks" ∷ file_name u ext ∷ []
place (normalized u) = codes "clips" ∷ codes "normalized" ∷ file_name u (codes ".mp4") ∷ []
place (filmstrip u) = codes "clips" ∷ codes "filmstrip" ∷ file_name u (codes ".jpg") ∷ []
place (output u) = codes "outputs" ∷ file_name u (codes ".mp4") ∷ []

-- A UUID is a number of 128 bits, and an extension holds no slash.
abbrev pub IsAsset : Asset → Type 0
IsAsset (original u ext) = (u < 2 ^ 128) × HasNoSlash ext
IsAsset (soundtrack u ext) = (u < 2 ^ 128) × HasNoSlash ext
IsAsset (normalized u) = u < 2 ^ 128
IsAsset (filmstrip u) = u < 2 ^ 128
IsAsset (output u) = u < 2 ^ 128

-- A file two directories below the base.
resolve-nested :
    (base : FilePath) (a b : Text) (u : ℕ) (ext : Text)
    → All IsName (a ∷ b ∷ [])
    → All HasNoSlash (a ∷ b ∷ [])
    → HasNoSlash ext
    → resolve base (join (a ∷ b ∷ file_name u ext ∷ [])) ≡ ok (base ++ a ∷ b ∷ file_name u ext ∷ [])
resolve-nested base a b u ext k h e =
    resolve-join base a (b ∷ file_name u ext ∷ []) (k.0, (k.1.0, (file_name-IsName u ext, tt)))
      (h.0, (h.1.0, (file_name-HasNoSlash u ext e, tt)))

resolve-flat :
    (base : FilePath) (a : Text) (u : ℕ) (ext : Text)
    → IsName a
    → HasNoSlash a
    → HasNoSlash ext
    → resolve base (join (a ∷ file_name u ext ∷ [])) ≡ ok (base ++ a ∷ file_name u ext ∷ [])
resolve-flat base a u ext k h e =
    resolve-join base a (file_name u ext ∷ []) (k, (file_name-IsName u ext, tt))
      (h, (file_name-HasNoSlash u ext e, tt))

-- Every key that the program builds is accepted by the storage and lies in the directory of its kind.
pub resolve-asset :
    (base : FilePath) (a : Asset) → IsAsset a → resolve base (asset_key a) ≡ ok (base ++ place a)
unfolding build_original_key build_normalized_key build_filmstrip_key build_soundtrack_key
    build_output_key
resolve-asset base (original u ext) h =
    resolve-nested base (codes "clips") (codes "original") u ext (ground arith) (ground arith) h.1
resolve-asset base (normalized u) h =
    resolve-nested base (codes "clips") (codes "normalized") u (codes ".mp4") (ground arith)
      (ground arith) (ground arith)
resolve-asset base (filmstrip u) h =
    resolve-nested base (codes "clips") (codes "filmstrip") u (codes ".jpg") (ground arith)
      (ground arith) (ground arith)
resolve-asset base (soundtrack u ext) h =
    resolve-flat base (codes "soundtracks") u ext (ground arith) (ground arith) h.1
resolve-asset base (output u) h =
    resolve-flat base (codes "outputs") u (codes ".mp4") (ground arith) (ground arith)
      (ground arith)

file_name-injective :
    (u v : ℕ) (a b : Text)
    → u < 2 ^ 128
    → v < 2 ^ 128
    → file_name u a ≡ file_name v b
    → (u ≡ v) × (a ≡ b)
file_name-injective u v a b hu hv e =
    let (p, q) =
      append-injective (uuid_text u) (uuid_text v) (length-uuid_text u ∙ sym (length-uuid_text v))
        e in
    (uuid_text-injective u v hu hv p, q)

place-injective : (a b : Asset) → IsAsset a → IsAsset b → place a ≡ place b → a ≡ b
place-injective (original u x) (original v y) h k e =
    let (p, q) = file_name-injective u v x y h.0 k.0 (cc) in ap₂ original p q
place-injective (soundtrack u x) (soundtrack v y) h k e =
    let (p, q) = file_name-injective u v x y h.0 k.0 (cc) in ap₂ soundtrack p q
place-injective (normalized u) (normalized v) h k e =
    ap normalized (file_name-injective u v (codes ".mp4") (codes ".mp4") h k (cc)).0
place-injective (filmstrip u) (filmstrip v) h k e =
    ap filmstrip (file_name-injective u v (codes ".jpg") (codes ".jpg") h k (cc)).0
place-injective (output u) (output v) h k e =
    ap output (file_name-injective u v (codes ".mp4") (codes ".mp4") h k (cc)).0
place-injective _ _ h k e = absurd (ground arith)

-- Two keys that the program builds lead to the same place only if they belong to the same upload and kind: no
-- clip, soundtrack or output overwrites another. UUIDs have 128 bits and extensions hold no slash.
pub asset_keys_apart :
    (base : FilePath) (a b : Asset)
    → IsAsset a
    → IsAsset b
    → resolve base (asset_key a) ≡ resolve base (asset_key b)
    → a ≡ b
asset_keys_apart base a b h k e =
    place-injective a b h k
      (append-injective base base refl
        (ok-injective (sym (resolve-asset base a h) ∙ e ∙ resolve-asset base b k))).1
  where
    ok-injective : {p q : FilePath} → ok p ≡ ok q → p ≡ q
    ok-injective e = cc

-- The parts of a soundtrack's key.
pub split_all-build_soundtrack_key :
    (u : ℕ) (ext : Text)
    → HasNoSlash ext
    → split_all b'/' (build_soundtrack_key u ext) ≡ codes "soundtracks" ∷ file_name u ext ∷ []
unfolding build_soundtrack_key
split_all-build_soundtrack_key u ext h =
    split_all-join (codes "soundtracks") (file_name u ext ∷ [])
      (ground arith, (file_name-HasNoSlash u ext h, tt))
