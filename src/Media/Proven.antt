-- ===== src/Media/Proven.antt =====
-- Only hardware codecs are chosen.
use mathlib.Core.List.{Memᴰ}
use mathlib.Core.Option.{some-injective}
use mathlib.Core.Path.{subst}
use dawnshell.Prelude.{
  ℕ, ◌-◌, ◌≤◌, ◌<◌, ◌≡◌, refl, sym, ap, ◌∙◌, ◌⊎◌, inl, inr, Bool, true, false, ◌||◌, Option, none,
  some, List, [], ◌∷◌, ◌++◌, map, arith, ltb, leb, if◌then◌else◌, Bool-cases, Option-cases, str_eq,
  str_eq-sym, length, take, length-append, length-take_le, take_all, ℤ, pos, negsuc,
}
use dawnshell.Media.Candidates.{
  max_candidates, max_codec_name, Store, Candidate, lower_case, hardware_prefixes, any_prefix,
  hardware_name, duplicate_candidate, add_candidate, mime_for_codec, legacy_names, add_names,
  add_legacy_candidates, is_hardware, add_found, found_codecs, collect_candidates, create_codec,
  proven_name, keep_proven, new_codec,
}

abbrev pub IsDistinct : List Candidate → Type 0
IsDistinct [] = Unit
IsDistinct (c ∷ cs) = (duplicate_candidate cs c.name ≡ false) × IsDistinct cs

-- `HARDWARE_ACCELERATED`.
abbrev hardware_accelerated : ℤ
hardware_accelerated = pos 2

-- The platform lists the name as that of a hardware codec, or it is one of the names that are known.
abbrev pub IsFromHardware : List (Option (List ℕ) × ℤ) → List (List ℕ) → List ℕ → Type 0
IsFromHardware found known name = Memᴰ (some name, hardware_accelerated) found ⊎ Memᴰ name known

-- A candidate that is marked as proven has the name of a hardware codec, any other has the empty name,
-- for which the platform chooses.
abbrev pub IsMarked : (List ℕ → Type 0) → Bool → List ℕ → Type 0
IsMarked Hardware true name = Hardware name
IsMarked Hardware false name = name ≡ []

-- Each name fits its array, and each candidate is marked rightly.
abbrev pub IsSound : (List ℕ → Type 0) → List Candidate → Type 0
IsSound Hardware [] = Unit
IsSound Hardware (c ∷ cs) =
    (length c.name < max_codec_name)
    × IsMarked Hardware c.hardware_proven c.name
    × IsSound Hardware cs

abbrev pub IsChoice : (List ℕ → Type 0) → List Candidate → Type 0
IsChoice Hardware cs = (length cs ≤ max_candidates) × IsDistinct cs × IsSound Hardware cs

duplicate-append :
    (cs : List Candidate) (c : Candidate) (name : List ℕ)
    → duplicate_candidate cs name ≡ false
    → str_eq c.name name ≡ false
    → duplicate_candidate (cs ++ c ∷ []) name ≡ false
unfolding duplicate_candidate
duplicate-append [] c name h h' = rw h' refl
duplicate-append (d ∷ ds) c name h h' = ground (arith, h, duplicate-append ds c name)

IsDistinct-append :
    (cs : List Candidate) (c : Candidate)
    → IsDistinct cs
    → duplicate_candidate cs c.name ≡ false
    → IsDistinct (cs ++ c ∷ [])
unfolding duplicate_candidate
IsDistinct-append [] c h h' = (refl, tt)
IsDistinct-append (d ∷ ds) c (new, h) h' =
    let other : str_eq d.name c.name ≡ false = ground (arith, h') in
    let others : duplicate_candidate ds c.name ≡ false = ground (arith, h') in
    (
      duplicate-append ds c d.name new (str_eq-sym d.name c.name other),
      IsDistinct-append ds c h others,
    )

module _ (Hardware : List ℕ → Type 0) where
  IsSound-append :
      (cs : List Candidate) (c : Candidate)
      → IsSound Hardware cs
      → length c.name < max_codec_name
      → IsMarked Hardware c.hardware_proven c.name
      → IsSound Hardware (cs ++ c ∷ [])
  IsSound-append [] c h h1 h2 = (h1, h2, tt)
  IsSound-append (d ∷ ds) c (short, good, h) h1 h2 = (short, good, IsSound-append ds c h h1 h2)

  add_candidate-IsChoice :
      (cs : List Candidate) (name : List ℕ) (proven : Bool)
      → IsChoice Hardware cs
      → IsMarked Hardware proven name
      → IsChoice Hardware (add_candidate cs (some name) proven)
  unfolding add_candidate
  add_candidate-IsChoice cs name proven (few, distinct, sound) good =
      let c : Candidate = record { name = name; hardware_proven = proven } in
      let full =
        leb max_candidates (length cs)
        || (leb max_codec_name (length name) || duplicate_candidate cs name) in
      elim (Bool-cases full) [
        | inl e ↦
            let same : add_candidate cs (some name) proven ≡ cs = rw (e, add_candidate) refl in
            subst (IsChoice Hardware) (sym same) (few, distinct, sound)
        | inr e ↦
            let added : add_candidate cs (some name) proven ≡ cs ++ c ∷ [] =
              rw (e, add_candidate) refl in
            let new : duplicate_candidate cs name ≡ false = ground (arith, e) in
            let short : length name < max_codec_name = ground (arith, e) in
            let room : length cs < max_candidates = ground (arith, e) in
            subst (IsChoice Hardware) (sym added) (
              omega (arith, room, length-append cs (c ∷ [])),
              IsDistinct-append cs c distinct new,
              IsSound-append cs c sound short good,
            )
      ]

  add_names-IsChoice :
      (names : List (List ℕ)) (cs : List Candidate)
      → ((name : List ℕ) → Memᴰ name names → Hardware name)
      → IsChoice Hardware cs
      → IsChoice Hardware (add_names cs names)
  unfolding add_names
  add_names-IsChoice [] cs known h = h
  add_names-IsChoice (n ∷ ns) cs known h =
      add_names-IsChoice ns (add_candidate cs (some n) true) (λ name m. known name (Memᴰ.tail m))
        (add_candidate-IsChoice cs n true h (known n (Memᴰ.head refl)))

  if-IsChoice :
      (t : Bool) (x y : List Candidate)
      → (t ≡ true → IsChoice Hardware x)
      → IsChoice Hardware y
      → IsChoice Hardware (if t then x else y)
  if-IsChoice true x y h h' = h refl
  if-IsChoice false x y h h' = h'

  is_hardware-accelerated : (kind : ℤ) → is_hardware kind ≡ true → hardware_accelerated ≡ kind
  is_hardware-accelerated (pos n) h = ap pos (ground (arith, h))
  is_hardware-accelerated (negsuc n) h = cc

  add_found-IsChoice :
      (found : List (Option (List ℕ) × ℤ)) (cs : List Candidate)
      → ((name : List ℕ) → Memᴰ (some name, hardware_accelerated) found → Hardware name)
      → IsChoice Hardware cs
      → IsChoice Hardware (add_found cs found)
  unfolding add_found add_candidate
  add_found-IsChoice [] cs listed h = h
  add_found-IsChoice ((none, kind) ∷ found) cs listed h =
      if-IsChoice (ltb (length cs) max_candidates) _ cs
        (λ _.
          add_found-IsChoice found _ (λ name m. listed name (Memᴰ.tail m))
            (if-IsChoice (is_hardware kind) cs cs (λ _. h) h))
        h
  add_found-IsChoice ((some name, kind) ∷ found) cs listed h =
      if-IsChoice (ltb (length cs) max_candidates) _ cs
        (λ _.
          add_found-IsChoice found _ (λ name' m. listed name' (Memᴰ.tail m))
            (if-IsChoice (is_hardware kind) (add_candidate cs (some name) true) cs
              (λ t. add_candidate-IsChoice cs name true h (
                listed name
                  (Memᴰ.head (ap (λ z. (some name, z)) (is_hardware-accelerated kind t)))))
              h))
        h

-- The name is cut already.
hardware_name-take : (n : List ℕ) → hardware_name (take (max_codec_name - 1) n) ≡ hardware_name n
unfolding hardware_name
hardware_name-take n =
    ap (λ t. any_prefix (map lower_case t) hardware_prefixes)
      (take_all (max_codec_name - 1) (take (max_codec_name - 1) n)
        (length-take_le (max_codec_name - 1) n))

module _ (S : Store) where
  open S use {World, Codec}

  -- The candidates for a codec are at most 24, with distinct names that fit their array, and a candidate
  -- is marked as proven only where the platform lists its name as that of a hardware codec for the MIME
  -- type, or the name is one of those known for the codec; any other candidate has the empty name, for
  -- which the platform chooses.
  pub collect_candidates-IsChoice :
      (codec : ℕ) (encoding : Bool) (w : World)
      → IsChoice
          (IsFromHardware
            (found_codecs S (mime_for_codec codec) encoding w).1
            (legacy_names codec encoding))
          (collect_candidates S codec encoding w).1
  unfolding collect_candidates add_legacy_candidates
  collect_candidates-IsChoice codec encoding w =
      let found = (found_codecs S (mime_for_codec codec) encoding w).1 in
      let known = legacy_names codec encoding in
      let Hardware = IsFromHardware found known in
      let store = add_found-IsChoice Hardware found [] (λ name m. inl m) (omega arith, tt, tt) in
      add_candidate-IsChoice Hardware _ [] false
        (add_names-IsChoice Hardware known (add_found [] found) (λ name m. inr m) store) refl

  keep_proven-some :
      (proven : Bool) (k codec : Codec) (n name : List ℕ) (w : World)
      → (keep_proven S proven k n w).1 ≡ some (codec, name)
      → (proven ≡ true) × (take (max_codec_name - 1) n ≡ name)
  keep_proven-some true k codec n name w h = (refl, ap (λ p. p.1) (some-injective _ _ h))
  keep_proven-some false k codec n name w h = cc

  -- A codec that is used is one of a candidate that is proven to be hardware, or has the name of a
  -- hardware codec.
  pub new_codec-IsHardware :
      (c : Candidate) (encoding : Bool) (mime : List ℕ) (w : World) (codec : Codec) (name : List ℕ)
      → (new_codec S c encoding mime w).1 ≡ some (codec, name)
      → (c.hardware_proven ≡ true) ⊎ (hardware_name name ≡ true)
  unfolding new_codec create_codec proven_name
  new_codec-IsHardware c encoding mime w codec name h =
      let (w1, created) = create_codec S c encoding mime w in
      elim (Option-cases created) [
        | inl e ↦ let h' = rw (e, new_codec) at h in cc
        | inr (k, e) ↦
            let (w2, n) = proven_name S c k w1 in
            let h' = rw (e, new_codec) at h in
            let (proven, same) =
              keep_proven-some (c.hardware_proven || hardware_name n) k codec n name w2 h' in
            elim (Bool-cases c.hardware_proven) [
              | inl known ↦ inl known
              | inr unproven ↦
                  let named : hardware_name n ≡ true = rw unproven at proven in
                  inr (ap hardware_name (sym same) ∙ hardware_name-take n ∙ named)
            ]
      ]
