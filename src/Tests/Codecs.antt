-- ===== src/Tests/Codecs.antt =====
-- The theorems on the choice of a codec, with a small platform.
use dawnshell.Prelude.{
  ℕ, suc, ◌≡◌, refl, ◌⊎◌, true, false, Option, none, some, List, [], ◌∷◌, codes, ℤ, pos,
}
use dawnshell.Media.Candidates.{
  Store, Candidate, starts_with, any_prefix, hardware_name, legacy_names, mime_for_codec,
  collect_candidates, create_codec, proven_name, new_codec,
}
use dawnshell.Media.Proven.{
  IsFromHardware, IsChoice, collect_candidates-IsChoice, new_codec-IsHardware,
}

-- A software codec under the hardware type, a name that is there twice, and one of another type.
abbrev found : List (Option (List ℕ) × ℤ)
found =
    (some (codes "c2.qti.avc.decoder"), pos 2)
    ∷ (none, pos 2)
    ∷ (some (codes "c2.qti.avc.decoder"), pos 2)
    ∷ (some (codes "c2.android.avc.decoder"), pos 1)
    ∷ []

abbrev platform : Store
platform = record {
  World = ℕ;
  Codec = ℕ;
  find_codecs = λ encoding mime w. (w, found);
  create_by_type = λ encoding mime w. (suc w, some w);
  create_by_name = λ name w. (suc w, none);
  get_name = some (λ codec w. (w, some (codes "OMX.qcom.video.decoder.avc")));
  delete = λ codec w. w;
}

collect_candidates-IsChoice_example :
    IsChoice (IsFromHardware found (legacy_names 1 false)) (collect_candidates platform 1 false 0).1
unfolding mime_for_codec
collect_candidates-IsChoice_example = collect_candidates-IsChoice platform 1 false 0

abbrev chosen : Candidate
chosen = record { name = []; hardware_proven = false }

chosen_codec :
    (new_codec platform chosen false (codes "video/avc") 7).1
    ≡ some (7, codes "OMX.qcom.video.decoder.avc")
unfolding new_codec create_codec proven_name hardware_name any_prefix starts_with
chosen_codec = refl

new_codec-IsHardware_example :
    (false ≡ true) ⊎ (hardware_name (codes "OMX.qcom.video.decoder.avc") ≡ true)
new_codec-IsHardware_example =
    new_codec-IsHardware platform chosen false (codes "video/avc") 7 7
      (codes "OMX.qcom.video.decoder.avc") chosen_codec
