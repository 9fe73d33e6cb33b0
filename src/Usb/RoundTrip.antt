-- ===== src/Usb/RoundTrip.antt =====
-- A device filter is parsed as it was written.
use mathlib.Core.List.{append_assoc}
use dawnshell.Prelude.{
  ℕ, zero, suc, ◌+◌, ◌*◌, ◌/◌, ◌%◌, ◌^◌, ◌≤◌, ◌<◌, ◌≡◌, refl, ap, ◌∙◌, false, some, List, [], ◌∷◌,
  ◌++◌, arith, ltb, leb, ◌==◌, codes, str_eq, str_eq_refl, length, drop, length-append,
}
use dawnshell.Usb.Filter.{
  UsbDeviceId, UsbDeviceFilter, max_usb_device_filters, colon, comma, usb_filter_matches, add_entry,
  parse_candidate, is_malformed, parse_entries, parse_usb_device_filter,
}
use dawnshell.Usb.Notation.{
  hex_digit, hex_word, show_entry, show_rest, show_filter, parse_usb_hex_word-hex_word,
}

-- Every identifier has two words of 16 bits.
pub record IsUsbDeviceId (e : UsbDeviceId) : Type 0 where
  pub vendor : e.vendor < 2 ^ 16
  pub product : e.product < 2 ^ 16

-- The entries are identifiers that differ from each other and from those before them.
pub data AreNew : UsbDeviceFilter → UsbDeviceFilter → Type 0 where
  new_nil : {before : UsbDeviceFilter} → AreNew before []
  new_cons :
      {before : UsbDeviceFilter} {e : UsbDeviceId} {filter : UsbDeviceFilter}
      → IsUsbDeviceId e
      → usb_filter_matches before e.vendor e.product ≡ false
      → AreNew (before ++ e ∷ []) filter
      → AreNew before (e ∷ filter)

-- What `parse_usb_device_filter` promises of its result.
pub record IsUsbDeviceFilter (filter : UsbDeviceFilter) : Type 0 where
  pub distinct : AreNew [] filter
  pub short : length filter ≤ 32

parse_candidate-show_entry :
    (e : UsbDeviceId) (rest : List ℕ)
    → IsUsbDeviceId e
    → parse_candidate (show_entry e ++ rest) ≡ some e
unfolding parse_candidate
parse_candidate-show_entry e rest h =
    rw (parse_usb_hex_word-hex_word e.vendor (colon ∷ hex_word e.product ++ rest) h.vendor)
      (rw (parse_usb_hex_word-hex_word e.product rest h.product) refl)

parse_entries_last :
    (fuel : ℕ) (before : UsbDeviceFilter) (e : UsbDeviceId)
    → IsUsbDeviceId e
    → length before < 32
    → usb_filter_matches before e.vendor e.product ≡ false
    → parse_entries (suc fuel) before (show_entry e) ≡ some (before ++ e ∷ [])
unfolding parse_entries is_malformed add_entry
parse_entries_last fuel before e h l new =
    let short : leb max_usb_device_filters (length before) ≡ false = ground arith in
    rw short (rw (parse_candidate-show_entry e [] h) (rw new refl))

parse_entries_more :
    (fuel : ℕ) (before : UsbDeviceFilter) (e : UsbDeviceId) (y : ℕ) (rest : List ℕ)
    → IsUsbDeviceId e
    → length before < 32
    → usb_filter_matches before e.vendor e.product ≡ false
    → parse_entries (suc fuel) before (show_entry e ++ comma ∷ y ∷ rest)
      ≡ parse_entries fuel (before ++ e ∷ []) (y ∷ rest)
unfolding parse_entries is_malformed add_entry
parse_entries_more fuel before e y rest h l new =
    let short : leb max_usb_device_filters (length before) ≡ false = ground arith in
    rw short (rw (parse_candidate-show_entry e (comma ∷ y ∷ rest) h) (rw new (ground arith)))

parse_entries-show :
    (fuel : ℕ) (before : UsbDeviceFilter) (e : UsbDeviceId) (filter : UsbDeviceFilter)
    → length filter < fuel
    → AreNew before (e ∷ filter)
    → length before + length filter < 32
    → parse_entries fuel before (show_entry e ++ show_rest filter) ≡ some (before ++ e ∷ filter)
parse_entries-show zero before e filter f new l = absurd (omega arith)
parse_entries-show (suc fuel) before e [] f (new_cons h n rest) l =
    parse_entries_last fuel before e h (omega arith) n
parse_entries-show (suc fuel) before e (x ∷ filter) f (new_cons h n rest) l =
    parse_entries_more fuel before e (hex_digit (x.vendor / 4096 % 16))
      (drop 1 (show_entry x ++ show_rest filter)) h (omega arith) n
    ∙ parse_entries-show fuel (before ++ e ∷ []) x filter (omega arith) rest
        (omega (arith, length-append before (e ∷ [])))
    ∙ ap some (append_assoc before (e ∷ []) (x ∷ filter))

length-show_rest : (filter : UsbDeviceFilter) → length (show_rest filter) ≡ 10 * length filter
length-show_rest [] = refl
length-show_rest (e ∷ filter) = omega (arith, length-show_rest filter)

str_eq-dash : (x y : ℕ) (s : List ℕ) → str_eq (x ∷ y ∷ s) (codes "-") ≡ false
unfolding str_eq
str_eq-dash x y s = ground arith

-- A device filter, of at most 32 distinct identifiers, is parsed as it was written.
pub parse_usb_device_filter-show :
    (filter : UsbDeviceFilter)
    → IsUsbDeviceFilter filter
    → parse_usb_device_filter (some (show_filter filter)) ≡ some filter
unfolding parse_usb_device_filter
parse_usb_device_filter-show [] h = rw (str_eq_refl (codes "-")) refl
parse_usb_device_filter-show (e ∷ filter) h =
    let long : ltb 512 (length (show_entry e ++ show_rest filter)) ≡ false =
      ground (arith, length-show_rest filter, h.short) in
    let fuel : length filter < suc (length (show_entry e ++ show_rest filter)) =
      omega (arith, length-show_rest filter) in
    let nonempty : (length (show_filter (e ∷ filter)) == 0) ≡ false = ground arith in
    rw nonempty (
      rw (str_eq-dash (hex_digit (e.vendor / 4096 % 16)) (hex_digit (e.vendor / 256 % 16)) _)
        (rw long (parse_entries-show _ [] e filter fuel h.distinct (omega (arith, h.short)))))
