-- ===== src/Media/Rows.antt =====
-- The rows that `normalize_image` copies: every pixel of the output comes from its place in the plane.
use mathlib.Core.Path.{subst}
use dawnshell.Prelude.{
  ℕ, zero, suc, ◌+◌, ◌-◌, ◌*◌, ◌≤◌, ◌<◌, ◌≡◌, refl, sym, ap, ◌∙◌, ◌≢◌, inl, inr, true, not, ◌||◌,
  none, some, List, [], ◌∷◌, arith, ◌==◌, if◌then◌else◌, Bool-cases, length, get_or, take, drop, ℤ,
  pos, negsuc, is_negative, pos_part, ◌+ℤ◌, ◌-ℤ◌, ◌*ℤ◌, ltb_ℤ,
}
use dawnshell.Media.Image.{copy_columns, copy_row, row_start}
use dawnshell.Media.Input.{is_positive}
use dawnshell.Media.Ndk.{Plane}

pub length-copy_columns :
    (columns first stride : ℕ) (bytes : List ℕ)
    → length (copy_columns columns first stride bytes) ≡ columns
unfolding copy_columns
length-copy_columns zero first stride bytes = refl
length-copy_columns (suc columns) first stride bytes =
    ap suc (length-copy_columns columns (first + stride) stride bytes)

next_column : (first stride c : ℕ) → first + stride + c * stride ≡ first + suc c * stride
next_column first stride c = ground arith

pub get_or-copy_columns :
    (columns first stride c : ℕ) (bytes : List ℕ)
    → c < columns
    → get_or (copy_columns columns first stride bytes) c 0 ≡ get_or bytes (first + c * stride) 0
unfolding copy_columns
get_or-copy_columns zero first stride c bytes h = absurd (omega arith)
get_or-copy_columns (suc columns) first stride zero bytes h =
    ap (λ k. get_or bytes k 0) (omega arith)
get_or-copy_columns (suc columns) first stride (suc c) bytes h =
    get_or-copy_columns columns (first + stride) stride c bytes (omega arith)
    ∙ ap (λ k. get_or bytes k 0) (next_column first stride c)

get_or-drop : (n i : ℕ) (xs : List ℕ) → get_or (drop n xs) i 0 ≡ get_or xs (n + i) 0
get_or-drop zero i xs = ap (λ k. get_or xs k 0) (omega arith)
get_or-drop (suc n) i [] = refl
get_or-drop (suc n) i (x ∷ xs) =
    let next : suc n + i ≡ suc (n + i) = omega arith in rw next (get_or-drop n i xs)

take-drop_step :
    (n first : ℕ) (xs : List ℕ)
    → first < length xs
    → take (suc n) (drop first xs) ≡ get_or xs first 0 ∷ take n (drop (suc first) xs)
take-drop_step n first [] h = absurd (omega arith)
take-drop_step n zero (x ∷ xs) h = refl
take-drop_step n (suc first) (x ∷ xs) h = take-drop_step n first xs (omega arith)

take-copy_columns :
    (columns first : ℕ) (bytes : List ℕ)
    → first + columns ≤ length bytes
    → take columns (drop first bytes) ≡ copy_columns columns first 1 bytes
unfolding copy_columns
take-copy_columns zero first bytes h = refl
take-copy_columns (suc columns) first bytes h =
    let next : suc first ≡ first + 1 = omega arith in
    take-drop_step columns first bytes (omega arith)
    ∙ ap (λ k. get_or bytes first 0 ∷ take columns (drop k bytes)) next
    ∙ ap (λ t. get_or bytes first 0 ∷ t) (take-copy_columns columns (first + 1) bytes (omega arith))

pub add_pos : (a b : ℕ) → pos a +ℤ pos b ≡ pos (a + b)
unfolding ◌+ℤ◌
add_pos a b = ground arith

sub_pos : (a b : ℕ) → b ≤ a → pos a -ℤ pos b ≡ pos (a - b)
unfolding ◌-ℤ◌
sub_pos a b h = ground arith

pub mul_pos : (a b : ℕ) → pos a *ℤ pos b ≡ pos (a * b)
unfolding ◌*ℤ◌
mul_pos a b = ground arith

last_pos : (f n s : ℕ) → pos f +ℤ (pos (suc n) -ℤ pos 1) *ℤ pos s ≡ pos (f + n * s)
last_pos f n s =
    ap (λ z. pos f +ℤ z *ℤ pos s) (sub_pos (suc n) 1 (omega arith))
    ∙ ap (λ z. pos f +ℤ z) (mul_pos (suc n - 1) s)
    ∙ add_pos f ((suc n - 1) * s)
    ∙ ap (λ k. pos (f + k * s)) (omega arith)

checked_lem :
    (first last : ℤ) (size n s f : ℕ)
    → last ≡ first +ℤ (pos (suc n) -ℤ pos 1) *ℤ pos s
    → (if is_negative first || (ltb_ℤ last first || not (ltb_ℤ last (pos size)))
        then none
        else some (pos_part first))
      ≡ some f
    → f + n * s < size
checked_lem (negsuc g) last size n s f e h = cc
checked_lem (pos g) (negsuc l) size n s f e h = cc (e, last_pos g n s)
checked_lem (pos g) (pos l) size n s f e h =
    let same_last : l ≡ g + n * s = ap pos_part (e ∙ last_pos g n s) in ground (arith, same_last, h)

-- A row that is accepted lies inside the plane.
pub row_start-lt :
    (n row s f : ℕ) (top left : ℤ) (p : Plane)
    → p.pixel_stride ≡ pos s
    → row_start (suc n) top left row p ≡ some f
    → f + n * s < length p.bytes
unfolding row_start
row_start-lt n row s f top left p e h =
    let first = (top +ℤ pos row) *ℤ p.row_stride +ℤ left *ℤ p.pixel_stride in
    checked_lem first (first +ℤ (pos (suc n) -ℤ pos 1) *ℤ p.pixel_stride) (length p.bytes) n s f
      (ap (λ z. first +ℤ (pos (suc n) -ℤ pos 1) *ℤ z) e) h

pub of_positive : (z : ℤ) → is_positive z ≡ true → z ≡ pos (pos_part z)
of_positive (pos n) h = refl
of_positive (negsuc n) h = cc

copy_row_at :
    (columns f s : ℕ) (bytes : List ℕ)
    → (s ≡ 1 → f + columns ≤ length bytes)
    → copy_row columns f s bytes ≡ copy_columns columns f s bytes
unfolding copy_row
copy_row_at columns f s bytes h = elim (Bool-cases (s == 1)) [
  | inl e ↦
      let one : s ≡ 1 = ground (arith, e) in
      rw e (
        take-copy_columns columns f bytes (h one)
        ∙ ap (λ t. copy_columns columns f t bytes) (sym one))
  | inr e ↦ rw e refl
]

row_end :
    (columns row f s : ℕ) (top left : ℤ) (p : Plane)
    → p.pixel_stride ≡ pos s
    → row_start columns top left row p ≡ some f
    → s ≡ 1
    → columns ≢ 0
    → f + columns ≤ length p.bytes
row_end zero row f s top left p e h one some_columns = absurd (some_columns refl)
row_end (suc n) row f s top left p e h one some_columns =
    let inside : f + n * s < length p.bytes = row_start-lt n row s f top left p e h in
    let inside' : f + n * 1 < length p.bytes = subst (λ k. f + n * k < length p.bytes) one inside in
    omega (arith, inside')

-- In a row of at least one column that is accepted, with a positive pixel stride, the branch for `memcpy` gives what the loop over
-- the columns gives.
pub copy_row-copy_columns :
    (columns row f : ℕ) (top left : ℤ) (p : Plane)
    → columns ≢ 0
    → is_positive p.pixel_stride ≡ true
    → row_start columns top left row p ≡ some f
    → copy_row columns f (pos_part p.pixel_stride) p.bytes
      ≡ copy_columns columns f (pos_part p.pixel_stride) p.bytes
copy_row-copy_columns columns row f top left p some_columns positive h =
    copy_row_at columns f (pos_part p.pixel_stride) p.bytes (λ one.
      row_end columns row f (pos_part p.pixel_stride) top left p
        (of_positive p.pixel_stride positive) h one some_columns)
