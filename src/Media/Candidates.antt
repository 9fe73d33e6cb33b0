-- ===== src/Media/Candidates.antt =====
-- The choice of a hardware codec: `hardware_name`, `collect_candidates`, `new_codec` and
-- `valid_parameters`.
use dawnshell.Prelude.{
  ℕ, ◌+◌, ◌-◌, ◌*◌, ◌/◌, ◌%◌, Bool, true, false, ◌&&◌, ◌||◌, Option, none, some, List, [], ◌∷◌,
  ◌++◌, map, ltb, leb, ◌==◌, if◌then◌else◌, codes, str_eq, length, take, ℤ, pos, negsuc,
}
use dawnshell.Media.Session.{max_record}

abbrev pub max_candidates : ℕ
max_candidates = 24

abbrev pub max_codec_name : ℕ
max_codec_name = 128

-- The codecs of the platform. A function that `dlsym` did not find is `none`.
pub record Store : Type 1 where
  pub World : Type 0
  pub Codec : Type 0
  -- The codecs for a MIME type, for encoding or not, in the order in which
  -- `AMediaCodecStore_findNextEncoderForFormat` or its twin gives them, with name and type; none if
  -- the functions or the format are missing.
  pub find_codecs : Bool → List ℕ → World → World × List (Option (List ℕ) × ℤ)
  pub create_by_type : Bool → List ℕ → World → World × Option Codec
  pub create_by_name : List ℕ → World → World × Option Codec
  -- `AMediaCodec_getName` with `AMediaCodec_releaseName`.
  pub get_name : Option (Codec → World → World × Option (List ℕ))
  pub delete : Codec → World → World

pub record Candidate : Type 0 where
  pub name : List ℕ
  pub hardware_proven : Bool

unfoldable pub starts_with : List ℕ → List ℕ → Bool
starts_with value [] = true
starts_with [] (p ∷ ps) = false
starts_with (v ∷ vs) (p ∷ ps) = v == p && starts_with vs ps

abbrev pub lower_case : ℕ → ℕ
lower_case x = if leb b'A' x && leb x b'Z' then x + 32 else x

abbrev pub hardware_prefixes : List (List ℕ)
hardware_prefixes =
    codes "omx.exynos."
    ∷ codes "omx.sec."
    ∷ codes "c2.exynos."
    ∷ codes "omx.qcom."
    ∷ codes "c2.qti."
    ∷ codes "omx.intel."
    ∷ codes "omx.nvidia."
    ∷ codes "omx.rk."
    ∷ codes "omx.amlogic."
    ∷ codes "omx.allwinner."
    ∷ []

unfoldable pub any_prefix : List ℕ → List (List ℕ) → Bool
any_prefix value [] = false
any_prefix value (p ∷ ps) = starts_with value p || any_prefix value ps

-- The name is cut to the array before it is compared.
unfoldable pub hardware_name : List ℕ → Bool
hardware_name name = any_prefix (map lower_case (take (max_codec_name - 1) name)) hardware_prefixes

unfoldable pub duplicate_candidate : List Candidate → List ℕ → Bool
duplicate_candidate [] name = false
duplicate_candidate (c ∷ cs) name = str_eq c.name name || duplicate_candidate cs name

-- The candidates, with a NULL name `none`.
unfoldable pub add_candidate : List Candidate → Option (List ℕ) → Bool → List Candidate
add_candidate cs none proven = cs
add_candidate cs (some name) proven =
    if leb max_candidates (length cs)
      || (leb max_codec_name (length name) || duplicate_candidate cs name)
    then cs
    else cs ++ record { name = name; hardware_proven = proven } ∷ []

abbrev pub avc : ℕ
avc = 1

abbrev pub hevc : ℕ
hevc = 2

unfoldable pub mime_for_codec : ℕ → Option (List ℕ)
mime_for_codec codec =
    if codec == avc
    then some (codes "video/avc")
    else if codec == hevc
    then some (codes "video/hevc")
    else none

abbrev pub legacy_names : ℕ → Bool → List (List ℕ)
legacy_names codec encoding =
    if codec == avc && encoding
    then codes "OMX.Exynos.AVC.Encoder"
      ∷ codes "c2.exynos.h264.encoder"
      ∷ codes "c2.qti.avc.encoder"
      ∷ codes "OMX.qcom.video.encoder.avc"
      ∷ []
    else if codec == avc
    then codes "OMX.Exynos.avc.dec"
      ∷ codes "OMX.Exynos.AVC.Decoder"
      ∷ codes "c2.exynos.h264.decoder"
      ∷ codes "c2.qti.avc.decoder"
      ∷ codes "OMX.qcom.video.decoder.avc"
      ∷ []
    else if codec == hevc && encoding
    then codes "OMX.Exynos.HEVC.Encoder"
      ∷ codes "c2.exynos.hevc.encoder"
      ∷ codes "c2.qti.hevc.encoder"
      ∷ codes "OMX.qcom.video.encoder.hevc"
      ∷ []
    else if codec == hevc
    then codes "OMX.Exynos.HEVC.Decoder"
      ∷ codes "OMX.Exynos.hevc.dec"
      ∷ codes "c2.exynos.hevc.decoder"
      ∷ codes "c2.qti.hevc.decoder"
      ∷ codes "OMX.qcom.video.decoder.hevc"
      ∷ []
    else []

unfoldable pub add_names : List Candidate → List (List ℕ) → List Candidate
add_names cs [] = cs
add_names cs (n ∷ ns) = add_names (add_candidate cs (some n) true) ns

unfoldable pub add_legacy_candidates : List Candidate → ℕ → Bool → List Candidate
add_legacy_candidates cs codec encoding = add_names cs (legacy_names codec encoding)

abbrev pub is_hardware : ℤ → Bool
is_hardware (pos n) = n == 2
is_hardware (negsuc n) = false

-- The loop over the codecs of the store; 2 is HARDWARE_ACCELERATED.
unfoldable pub add_found : List Candidate → List (Option (List ℕ) × ℤ) → List Candidate
add_found cs [] = cs
add_found cs ((name, kind) ∷ found) =
    if ltb (length cs) max_candidates
    then add_found (if is_hardware kind then add_candidate cs name true else cs) found
    else cs

module _ (S : Store) where
  open S use {World, Codec, find_codecs, create_by_type, create_by_name, get_name, delete}

  abbrev pub found_codecs : Option (List ℕ) → Bool → World → World × List (Option (List ℕ) × ℤ)
  found_codecs none encoding w = (w, [])
  found_codecs (some mime) encoding w = find_codecs encoding mime w

  unfoldable pub collect_candidates : ℕ → Bool → World → World × List Candidate
  collect_candidates codec encoding w =
      let (w', found) = found_codecs (mime_for_codec codec) encoding w in
      (
        w',
        add_candidate (add_legacy_candidates (add_found [] found) codec encoding) (some []) false,
      )

  -- The platform chooses for an empty name.
  unfoldable pub create_codec : Candidate → Bool → List ℕ → World → World × Option Codec
  create_codec c encoding mime w =
      if length c.name == 0 then create_by_type encoding mime w else create_by_name c.name w

  -- The name that the codec gives itself, else that of the candidate.
  unfoldable pub proven_name : Candidate → Codec → World → World × List ℕ
  proven_name c codec w = elim get_name [
    | none ↦ (w, c.name)
    | some get ↦
        let (w', name) = get codec w in elim name [ none ↦ (w', c.name) | some n ↦ (w', n) ]
  ]

  -- The codec and its name, cut to the array; a codec that is not proven is deleted.
  abbrev pub keep_proven : Bool → Codec → List ℕ → World → World × Option (Codec × List ℕ)
  keep_proven true codec name w = (w, some (codec, take (max_codec_name - 1) name))
  keep_proven false codec name w = (delete codec w, none)

  unfoldable pub new_codec : Candidate → Bool → List ℕ → World → World × Option (Codec × List ℕ)
  new_codec c encoding mime w =
      let (w1, created) = create_codec c encoding mime w in
      elim created [
        | none ↦ (w1, none)
        | some codec ↦
            let (w2, name) = proven_name c codec w1 in
            keep_proven (c.hardware_proven || hardware_name name) codec name w2
      ]

-- Both sides even and from 16 to 4096, and a frame that fits a record.
unfoldable pub valid_parameters : ℕ → ℕ → ℕ → ℕ → Bool
valid_parameters width height frame_rate bitrate =
    (leb 16 width && leb width 4096)
    && ((leb 16 height && leb height 4096)
        && ((width % 2 == 0 && height % 2 == 0)
            && ((leb 1 frame_rate && leb frame_rate 240)
                && ((leb 1000 bitrate && leb bitrate 100000000)
                    && leb (width * height * 3 / 2) max_record))))
