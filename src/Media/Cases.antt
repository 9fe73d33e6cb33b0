-- ===== src/Media/Cases.antt =====
-- The cases of what the codecs give.
use dawnshell.Prelude.{ℕ, zero, suc, ◌≡◌, refl, ◌⊎◌, inl, inr, List, ℤ, pos, negsuc}
use dawnshell.Media.Image.{refused, Normalized, pixels}
use dawnshell.Media.Ndk.{
  BufferInfo, OutputIndex, try_again_later, format_changed_now, buffers_changed, other_negative,
  buffer, Image, Acquired, image, no_buffer, failed, Ndk,
}
use dawnshell.Media.Pending.{Image?, acquired, none_yet, failed_to}
use dawnshell.Media.Session.{Pipeline, decoder, encoder, transcoder}

pub data IndexIs (i : OutputIndex) : Type 0 where
  waits : i ≡ try_again_later → IndexIs i
  changes : i ≡ format_changed_now → IndexIs i
  rebuffers : i ≡ buffers_changed → IndexIs i
  negative : i ≡ other_negative → IndexIs i
  holds : (n : ℕ) (info : BufferInfo) → i ≡ buffer n info → IndexIs i

pub index_is : (i : OutputIndex) → IndexIs i
index_is try_again_later = waits refl
index_is format_changed_now = changes refl
index_is buffers_changed = rebuffers refl
index_is other_negative = negative refl
index_is (buffer n info) = holds n info refl

pub data PipelineIs {N : Ndk} (p : Pipeline N) : Type 0 where
  decodes : (c : N.Codec) (reader : N.Reader) → p ≡ decoder c reader → PipelineIs p
  encodes : (c : N.Codec) → p ≡ encoder c → PipelineIs p
  transcodes : (d e : N.Codec) (surface : N.Surface) → p ≡ transcoder d e surface → PipelineIs p

pub pipeline_is : {N : Ndk} (p : Pipeline N) → PipelineIs p
pipeline_is (decoder c reader) = decodes c reader refl
pipeline_is (encoder c) = encodes c refl
pipeline_is (transcoder d e surface) = transcodes d e surface refl

pub data AcquiredIs (a : Acquired) : Type 0 where
  gives : (i : Image) → a ≡ image i → AcquiredIs a
  has_none : a ≡ no_buffer → AcquiredIs a
  fails : a ≡ failed → AcquiredIs a

pub acquired_is : (a : Acquired) → AcquiredIs a
acquired_is (image i) = gives i refl
acquired_is no_buffer = has_none refl
acquired_is failed = fails refl

pub Normalized-cases :
    (n : Normalized)
    → ((status : ℤ) × (text : List ℕ) × (n ≡ refused status text))
      ⊎ ((bytes : List ℕ) × (n ≡ pixels bytes))
Normalized-cases (refused status text) = inl (status, text, refl)
Normalized-cases (pixels bytes) = inr (bytes, refl)

pub Image?-cases :
    (r : Image?) → ((i : Image) × (r ≡ acquired i)) ⊎ ((r ≡ none_yet) ⊎ (r ≡ failed_to))
Image?-cases (acquired i) = inl (i, refl)
Image?-cases none_yet = inr (inl refl)
Image?-cases failed_to = inr (inr refl)

pub data StatusIs (z : ℤ) : Type 0 where
  is_done : z ≡ pos zero → StatusIs z
  goes_on : (k : ℕ) → z ≡ pos (suc k) → StatusIs z
  is_bad : (k : ℕ) → z ≡ negsuc k → StatusIs z

pub status_is : (z : ℤ) → StatusIs z
status_is (pos zero) = is_done refl
status_is (pos (suc k)) = goes_on k refl
status_is (negsuc k) = is_bad k refl
