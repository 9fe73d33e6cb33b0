-- ===== src/Usb/Notation.antt =====
-- How a device filter is written, `%04x:%04x` with a comma between two, and what the parser makes of
-- it.
use dawnshell.Prelude.{
  ℕ, ◌+◌, ◌/◌, ◌%◌, ◌^◌, ◌<◌, ◌≡◌, ap, some, List, [], ◌∷◌, ◌++◌, arith, ltb, if◌then◌else◌, codes,
}
use dawnshell.Usb.Filter.{
  UsbDeviceId, UsbDeviceFilter, colon, comma, hex_digit_value, parse_usb_hex_word,
}

-- `%x` of a number below 16.
abbrev pub hex_digit : ℕ → ℕ
hex_digit n = if ltb n 10 then 48 + n else 87 + n

-- `%04x` of a number below 2 ^ 16.
abbrev pub hex_word : ℕ → List ℕ
hex_word n =
    hex_digit (n / 4096 % 16)
    ∷ hex_digit (n / 256 % 16)
    ∷ hex_digit (n / 16 % 16)
    ∷ hex_digit (n % 16)
    ∷ []

abbrev pub show_entry : UsbDeviceId → List ℕ
show_entry e = hex_word e.vendor ++ colon ∷ hex_word e.product

-- The entries behind a first one.
abbrev pub show_rest : UsbDeviceFilter → List ℕ
show_rest [] = []
show_rest (e ∷ filter) = comma ∷ show_entry e ++ show_rest filter

abbrev pub show_filter : UsbDeviceFilter → List ℕ
show_filter [] = codes "-"
show_filter (e ∷ filter) = show_entry e ++ show_rest filter

hex_digit_value-hex_digit : (n : ℕ) → n < 16 → hex_digit_value (hex_digit n) ≡ some n
unfolding hex_digit_value
hex_digit_value-hex_digit n h = ground arith

pub parse_usb_hex_word-hex_word :
    (n : ℕ) (rest : List ℕ) → n < 2 ^ 16 → parse_usb_hex_word (hex_word n ++ rest) ≡ some n
unfolding parse_usb_hex_word
parse_usb_hex_word-hex_word n rest h =
    rw (hex_digit_value-hex_digit (n / 4096 % 16) (omega arith)) (
      rw (hex_digit_value-hex_digit (n / 256 % 16) (omega arith)) (
        rw (hex_digit_value-hex_digit (n / 16 % 16) (omega arith))
          (rw (hex_digit_value-hex_digit (n % 16) (omega arith)) (ap some (omega arith)))))
