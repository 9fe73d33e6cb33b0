-- ===== src/Media/Pixels.antt =====
-- The planes that `normalize_image` copies: how long they are, and that every pixel comes from its place.
use mathlib.Core.Option.{some-injective}
use dawnshell.Prelude.{
  ℕ, zero, suc, ◌+◌, ◌*◌, ◌≤◌, ◌<◌, ◌≡◌, sym, ap, ◌∙◌, ◌≢◌, true, some, List, ◌++◌, arith,
  bind-some, length, get_or, length-append, get_or-append_left, get_or-append_right, ℤ, pos, negsuc,
  is_negative, pos_part, ◌+ℤ◌, ◌-ℤ◌, ◌*ℤ◌, ltb_ℤ, none, not, ◌||◌, if◌then◌else◌,
}
use dawnshell.Media.Image.{copy_row, row_start, copy_rows}
use dawnshell.Media.Input.{is_positive}
use dawnshell.Media.Ndk.{Plane}
use dawnshell.Media.Rows.{
  length-copy_columns, get_or-copy_columns, copy_row-copy_columns, row_start-lt, of_positive,
  mul_pos, add_pos,
}

-- What the loop over the rows went through.
copy_rows-some :
    (rows columns row : ℕ) (top left : ℤ) (p : Plane) (out : List ℕ)
    → copy_rows (suc rows) columns top left row p ≡ some out
    → (f : ℕ) × (rest : List ℕ) × (row_start columns top left row p ≡ some f)
      × (copy_rows rows columns top left (row + 1) p ≡ some rest)
      × (copy_row columns f (pos_part p.pixel_stride) p.bytes ++ rest ≡ out)
unfolding copy_rows
copy_rows-some rows columns row top left p out h =
    let (f, e, h') = bind-some (row_start columns top left row p) _ out h in
    let (rest, e', h'') = bind-some (copy_rows rows columns top left (row + 1) p) _ out h' in
    (f, rest, e, e', some-injective _ _ h'')

length-copy_row :
    (columns row f : ℕ) (top left : ℤ) (p : Plane)
    → columns ≢ 0
    → is_positive p.pixel_stride ≡ true
    → row_start columns top left row p ≡ some f
    → length (copy_row columns f (pos_part p.pixel_stride) p.bytes) ≡ columns
length-copy_row columns row f top left p some_columns positive h =
    ap length (copy_row-copy_columns columns row f top left p some_columns positive h)
    ∙ length-copy_columns columns f (pos_part p.pixel_stride) p.bytes

pub length-copy_rows :
    (rows columns row : ℕ) (top left : ℤ) (p : Plane) (out : List ℕ)
    → columns ≢ 0
    → is_positive p.pixel_stride ≡ true
    → copy_rows rows columns top left row p ≡ some out
    → length out ≡ rows * columns
unfolding copy_rows
length-copy_rows zero columns row top left p out some_columns positive h =
    let nothing : 0 ≡ 0 * columns = ground arith in ap length (sym (some-injective _ _ h)) ∙ nothing
length-copy_rows (suc rows) columns row top left p out some_columns positive h =
    let (f, rest, e, e', h') = copy_rows-some rows columns row top left p out h in
    let here = length-copy_row columns row f top left p some_columns positive e in
    let there = length-copy_rows rows columns (row + 1) top left p rest some_columns positive e' in
    let all =
      ap length (sym h')
      ∙ length-append (copy_row columns f (pos_part p.pixel_stride) p.bytes) rest in
    ground (arith, here, there, all)

-- Each pixel comes from as many pixel strides behind the start of its row as its column says.
pixel-copy_rows :
    (rows columns row r c : ℕ) (top left : ℤ) (p : Plane) (out : List ℕ)
    → columns ≢ 0
    → is_positive p.pixel_stride ≡ true
    → copy_rows rows columns top left row p ≡ some out
    → r < rows
    → c < columns
    → (f : ℕ) × (row_start columns top left (row + r) p ≡ some f)
      × (get_or out (r * columns + c) 0 ≡ get_or p.bytes (f + c * pos_part p.pixel_stride) 0)
unfolding copy_rows
pixel-copy_rows zero columns row r c top left p out some_columns positive h in_rows in_columns =
    absurd (omega arith)
pixel-copy_rows (suc rows) columns row zero c top left p out some_columns positive h in_rows
      in_columns =
    let (f, rest, e, e', h') = copy_rows-some rows columns row top left p out h in
    let here = copy_row-copy_columns columns row f top left p some_columns positive e in
    let size = length-copy_row columns row f top left p some_columns positive e in
    let inside : c < length (copy_row columns f (pos_part p.pixel_stride) p.bytes) =
      omega (arith, size) in
    let at : 0 * columns + c ≡ c = ground arith in
    let row_at : row + 0 ≡ row = omega arith in
    (
      f,
      rw row_at e,
      rw at (
          ap (λ t. get_or t c 0) (sym h')
          ∙ get_or-append_left (copy_row columns f (pos_part p.pixel_stride) p.bytes) rest c inside
          ∙ ap (λ t. get_or t c 0) here
          ∙ get_or-copy_columns columns f (pos_part p.pixel_stride) c p.bytes in_columns),
    )
pixel-copy_rows (suc rows) columns row (suc r) c top left p out some_columns positive h in_rows
      in_columns =
    let (f, rest, e, e', h') = copy_rows-some rows columns row top left p out h in
    let size = length-copy_row columns row f top left p some_columns positive e in
    let (g, e'', pixel) =
      pixel-copy_rows rows columns (row + 1) r c top left p rest some_columns positive e'
        (omega arith) in_columns in
    let at : suc r * columns + c
        ≡ length (copy_row columns f (pos_part p.pixel_stride) p.bytes) + (r * columns + c) =
      ground (arith, size) in
    let row_at : row + suc r ≡ row + 1 + r = omega arith in
    (
      g,
      rw row_at e'',
      rw at (
          ap
            (λ t.
              get_or t
                (length (copy_row columns f (pos_part p.pixel_stride) p.bytes) + (r * columns + c))
                0)
            (sym h')
          ∙ get_or-append_right (copy_row columns f (pos_part p.pixel_stride) p.bytes) rest
              (r * columns + c)
          ∙ pixel),
    )

first_of :
    (z last : ℤ) (size f : ℕ)
    → (if is_negative z || (ltb_ℤ last z || not (ltb_ℤ last (pos size)))
        then none
        else some (pos_part z))
      ≡ some f
    → z ≡ pos f
first_of (pos n) last size f h = ap pos (ground (arith, h))
first_of (negsuc n) last size f h = cc

-- The start of a row that is accepted is at its place.
row_start-place :
    (columns row f : ℕ) (top left : ℤ) (p : Plane)
    → row_start columns top left row p ≡ some f
    → (top +ℤ pos row) *ℤ p.row_stride +ℤ left *ℤ p.pixel_stride ≡ pos f
unfolding row_start
row_start-place columns row f top left p h =
    let first = (top +ℤ pos row) *ℤ p.row_stride +ℤ left *ℤ p.pixel_stride in
    let last = first +ℤ (pos columns -ℤ pos 1) *ℤ p.pixel_stride in
    first_of first last (length p.bytes) f h

columns_before : (c n s : ℕ) → c ≤ n → c * s ≤ n * s
columns_before c n s h = grind arith

-- A column of a row that is accepted lies inside the plane.
column-lt :
    (columns c row f : ℕ) (top left : ℤ) (p : Plane)
    → c < columns
    → is_positive p.pixel_stride ≡ true
    → row_start columns top left row p ≡ some f
    → f + c * pos_part p.pixel_stride < length p.bytes
column-lt zero c row f top left p h positive e = absurd (omega arith)
column-lt (suc n) c row f top left p h positive e =
    let s = pos_part p.pixel_stride in
    let last = row_start-lt n row s f top left p (of_positive p.pixel_stride positive) e in
    omega (arith, last, columns_before c n s (omega arith))

column_place :
    (first z : ℤ) (f c : ℕ)
    → first ≡ pos f
    → is_positive z ≡ true
    → first +ℤ pos c *ℤ z ≡ pos (f + c * pos_part z)
column_place first z f c e positive =
    ap (λ t. t +ℤ pos c *ℤ z) e
    ∙ ap (λ t. pos f +ℤ pos c *ℤ t) (of_positive z positive)
    ∙ ap (λ t. pos f +ℤ t) (mul_pos c (pos_part z))
    ∙ add_pos f (c * pos_part z)

-- Where the rows of a plane, of at least one column and a positive pixel stride, are copied, every row
-- and column has its pixel in the output, and that is the byte of the plane at the row, counted from
-- the top of the crop, in row strides, and the column, counted from its left, in pixel strides: an
-- offset that is not negative and inside the plane.
pub get_or-copy_rows :
    (rows columns row r c : ℕ) (top left : ℤ) (p : Plane) (out : List ℕ)
    → columns ≢ 0
    → is_positive p.pixel_stride ≡ true
    → copy_rows rows columns top left row p ≡ some out
    → r < rows
    → c < columns
    → (k : ℕ) × ((top +ℤ pos (row + r)) *ℤ p.row_stride
          +ℤ left *ℤ p.pixel_stride
          +ℤ pos c *ℤ p.pixel_stride
        ≡ pos k)
      × (k < length p.bytes)
      × (length out ≡ rows * columns)
      × (get_or out (r * columns + c) 0 ≡ get_or p.bytes k 0)
get_or-copy_rows rows columns row r c top left p out some_columns positive h in_rows in_columns =
    let (f, e, pixel) =
      pixel-copy_rows rows columns row r c top left p out some_columns positive h in_rows
        in_columns in
    (
      f + c * pos_part p.pixel_stride,
      column_place _ p.pixel_stride f c (row_start-place columns (row + r) f top left p e) positive,
      column-lt columns c (row + r) f top left p in_columns positive e,
      length-copy_rows rows columns row top left p out some_columns positive h,
      pixel,
    )
