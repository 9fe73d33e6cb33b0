-- ===== src/Usb/Accepted.antt =====
-- Whatever the parser accepts is a device filter.
use mathlib.Core.List.{append-nil, append_assoc}
use mathlib.Core.Option.{some-injective}
use mathlib.Core.Path.{subst}
use dawnshell.Prelude.{
  ℕ, zero, suc, ◌+◌, ◌*◌, ◌%◌, ◌^◌, ◌<◌, ◌≡◌, sym, inl, inr, false, ◌||◌, Option, none, some, List,
  [], ◌∷◌, ◌++◌, arith, ltb, ◌==◌, Bool-cases, bind-some, if-cases, codes, str_eq, length, drop,
  length-append,
}
use dawnshell.Usb.Filter.{
  UsbDeviceId, UsbDeviceFilter, hex_digit_value, parse_hex_digits, parse_usb_hex_word,
  usb_filter_matches, add_entry, parse_candidate, is_malformed, parse_entries,
  parse_usb_device_filter,
}
use dawnshell.Usb.RoundTrip.{IsUsbDeviceId, AreNew, new_nil, new_cons, IsUsbDeviceFilter}

hex_digit_value-lt : (x n : ℕ) → hex_digit_value x ≡ some n → n < 16
unfolding hex_digit_value
hex_digit_value-lt x n e = ground arith

AreNew-snoc :
    (before filter : UsbDeviceFilter) (e : UsbDeviceId)
    → AreNew before filter
    → IsUsbDeviceId e
    → usb_filter_matches (before ++ filter) e.vendor e.product ≡ false
    → AreNew before (filter ++ e ∷ [])
AreNew-snoc before [] e new_nil h n = new_cons h (rw (sym (append-nil before)) n) new_nil
AreNew-snoc before (x ∷ filter) e (new_cons hx nx rest) h n =
    new_cons hx nx
      (AreNew-snoc (before ++ x ∷ []) filter e rest h (rw (append_assoc before (x ∷ []) filter) n))

-- One digit of a word that is read.
parse_hex_digits-suc :
    (digits result : ℕ) (value : List ℕ) (n : ℕ)
    → parse_hex_digits (suc digits) result value ≡ some n
    → (d : ℕ) × (rest : List ℕ) × (d < 16)
      × (parse_hex_digits digits (result * 16 % 2 ^ 32 + d) rest ≡ some n)
unfolding parse_hex_digits
parse_hex_digits-suc digits result [] n e = cc
parse_hex_digits-suc digits result (x ∷ rest) n e =
    let (d, read, e') = bind-some (hex_digit_value x) _ n e in
    (d, rest, hex_digit_value-lt x d read, e')

parse_hex_digits_zero :
    (result : ℕ) (value : List ℕ) (n : ℕ) → parse_hex_digits 0 result value ≡ some n → result ≡ n
unfolding parse_hex_digits
parse_hex_digits_zero result value n e = some-injective result n e

-- A word of four digits has 16 bits.
parse_usb_hex_word-lt : (value : List ℕ) (n : ℕ) → parse_usb_hex_word value ≡ some n → n < 2 ^ 16
unfolding parse_usb_hex_word
parse_usb_hex_word-lt value n e =
    let (a, s1, ha, e1) = parse_hex_digits-suc 3 0 value n e in
    let (b, s2, hb, e2) = parse_hex_digits-suc 2 _ s1 n e1 in
    let (c, s3, hc, e3) = parse_hex_digits-suc 1 _ s2 n e2 in
    let (d, s4, hd, e4) = parse_hex_digits-suc 0 _ s3 n e3 in
    subst (λ m. m < 2 ^ 16) (parse_hex_digits_zero _ s4 n e4) (omega arith)

parse_candidate-IsUsbDeviceId :
    (rest : List ℕ) (c : UsbDeviceId) → parse_candidate rest ≡ some c → IsUsbDeviceId c
unfolding parse_candidate
parse_candidate-IsUsbDeviceId rest c e =
    let (v, read_v, e1) = bind-some (parse_usb_hex_word rest) _ c e in
    let (p, read_p, e2) = bind-some (parse_usb_hex_word (drop 5 rest)) _ c e1 in
    subst IsUsbDeviceId (some-injective (record { vendor = v; product = p }) c e2) (record {
      vendor = parse_usb_hex_word-lt rest v read_v;
      product = parse_usb_hex_word-lt (drop 5 rest) p read_p;
    })

add_entry-IsUsbDeviceFilter :
    (filter : UsbDeviceFilter) (c : UsbDeviceId)
    → IsUsbDeviceFilter filter
    → length filter < 32
    → IsUsbDeviceId c
    → IsUsbDeviceFilter (add_entry filter c)
unfolding add_entry
add_entry-IsUsbDeviceFilter filter c h l hc =
    elim (Bool-cases (usb_filter_matches filter c.vendor c.product)) [
      | inl old ↦ rw old h
      | inr new ↦ rw new (record {
        distinct = AreNew-snoc [] filter c h.distinct hc new;
        short = omega (arith, length-append filter (c ∷ []), l);
      })
    ]

is_malformed-length :
    (filter : UsbDeviceFilter) (rest : List ℕ)
    → is_malformed filter rest ≡ false
    → length filter < 32
unfolding is_malformed
is_malformed-length filter rest e = ground arith

IsUsbDeviceFilter-empty : IsUsbDeviceFilter []
IsUsbDeviceFilter-empty = record { distinct = new_nil; short = omega arith }

parse_entries-IsUsbDeviceFilter :
    (fuel : ℕ) (before : UsbDeviceFilter) (rest : List ℕ) (filter : UsbDeviceFilter)
    → IsUsbDeviceFilter before
    → parse_entries fuel before rest ≡ some filter
    → IsUsbDeviceFilter filter
unfolding parse_entries
parse_entries-IsUsbDeviceFilter zero before rest filter h e = cc
parse_entries-IsUsbDeviceFilter (suc fuel) before rest filter h e =
    elim (if-cases (length rest == 0) _ _ _ e) [
      | inl (_, done) ↦ subst IsUsbDeviceFilter (some-injective before filter done) h
      | inr (_, more) ↦ elim (if-cases (is_malformed before rest) _ _ _ more) [
        | inl (_, bad) ↦ cc
        | inr (good, body) ↦
            let (c, parsed, e') = bind-some (parse_candidate rest) _ filter body in
            let next : IsUsbDeviceFilter (add_entry before c) =
              add_entry-IsUsbDeviceFilter before c h (is_malformed-length before rest good)
                (parse_candidate-IsUsbDeviceId rest c parsed) in
            elim (if-cases (length rest == 9) _ _ _ e') [
              | inl (_, last) ↦ subst IsUsbDeviceFilter (some-injective _ filter last) next
              | inr (_, e'') ↦ elim (if-cases (length rest == 10) _ _ _ e'') [
                | inl (_, dangling) ↦ cc
                | inr (_, result) ↦
                    parse_entries-IsUsbDeviceFilter fuel (add_entry before c) (drop 10 rest) filter
                      next result
              ]
            ]
      ]
    ]

-- Every value that is accepted stands for a device filter: at most 32 identifiers of two 16-bit
-- words, all different.
pub parse_usb_device_filter-IsUsbDeviceFilter :
    (value : Option (List ℕ)) (filter : UsbDeviceFilter)
    → parse_usb_device_filter value ≡ some filter
    → IsUsbDeviceFilter filter
unfolding parse_usb_device_filter
parse_usb_device_filter-IsUsbDeviceFilter none filter e =
    subst IsUsbDeviceFilter (some-injective [] filter e) IsUsbDeviceFilter-empty
parse_usb_device_filter-IsUsbDeviceFilter (some value) filter e =
    elim (if-cases (length value == 0 || str_eq value (codes "-")) _ _ _ e) [
      | inl (_, empty) ↦
          subst IsUsbDeviceFilter (some-injective [] filter empty) IsUsbDeviceFilter-empty
      | inr (_, e') ↦ elim (if-cases (ltb 512 (length value)) _ _ _ e') [
        | inl (_, long) ↦ cc
        | inr (_, parsed) ↦
            parse_entries-IsUsbDeviceFilter (suc (length value)) [] value filter
              IsUsbDeviceFilter-empty parsed
      ]
    ]
