-- ===== src/Usb/Filter.antt =====
-- The list of device identifiers that the user hands to Debian: `parse_usb_device_filter` and its
-- helpers.
use dawnshell.Prelude.{
  ℕ, zero, suc, ◌+◌, ◌-◌, ◌*◌, ◌%◌, ◌^◌, Bool, true, false, ◌&&◌, ◌||◌, Option, none, some, List,
  [], ◌∷◌, ◌++◌, ltb, leb, ◌==◌, ◌!=◌, if◌then◌else◌, ◌>>=◌, codes, str_eq, length, get_or, drop,
}

pub record UsbDeviceId : Type 0 where
  pub vendor : ℕ
  pub product : ℕ

-- `entries[0 .. count)`, at most `MAX_USB_DEVICE_FILTERS` of them.
abbrev pub UsbDeviceFilter : Type 0
UsbDeviceFilter = List UsbDeviceId

abbrev pub max_usb_device_filters : ℕ
max_usb_device_filters = 32

-- The colon and the comma of the notation.
abbrev pub colon : ℕ
colon = 58

abbrev pub comma : ℕ
comma = 44

-- -1 is `none`.
unfoldable pub hex_digit_value : ℕ → Option ℕ
hex_digit_value value =
    if leb 48 value && leb value 57
    then some (value - 48)
    else if leb 97 value && leb value 102
    then some (value - 97 + 10)
    else if leb 65 value && leb value 70
    then some (value - 65 + 10)
    else none

-- The loop of `parse_usb_hex_word`, with `digits` digits to go; the end of the string is the byte 0.
unfoldable pub parse_hex_digits : ℕ → ℕ → List ℕ → Option ℕ
parse_hex_digits zero result value = some result
parse_hex_digits (suc digits) result [] = none
parse_hex_digits (suc digits) result (x ∷ value) = do
  digit ← hex_digit_value x
  parse_hex_digits digits (result * 16 % 2 ^ 32 + digit) value

unfoldable pub parse_usb_hex_word : List ℕ → Option ℕ
unfolding parse_hex_digits
parse_usb_hex_word value = parse_hex_digits 4 0 value

unfoldable pub usb_filter_matches : UsbDeviceFilter → ℕ → ℕ → Bool
usb_filter_matches [] vendor product = false
usb_filter_matches (e ∷ filter) vendor product =
    if e.vendor == vendor && e.product == product
    then true
    else usb_filter_matches filter vendor product

-- `if (!duplicate) filter->entries[filter->count++] = candidate;`
unfoldable pub add_entry : UsbDeviceFilter → UsbDeviceId → UsbDeviceFilter
add_entry filter c =
    if usb_filter_matches filter c.vendor c.product then filter else filter ++ (c ∷ [])

-- The candidate at the head of what is left of the value.
unfoldable pub parse_candidate : List ℕ → Option UsbDeviceId
parse_candidate rest = do
  vendor ← parse_usb_hex_word rest
  product ← parse_usb_hex_word (drop 5 rest)
  some (record { vendor = vendor; product = product })

-- The two tests at the head of the loop's body.
unfoldable pub is_malformed : UsbDeviceFilter → List ℕ → Bool
is_malformed filter rest =
    leb max_usb_device_filters (length filter)
    || (ltb (length rest) 9
        || (get_or rest 4 0 != colon || (ltb 9 (length rest) && get_or rest 9 0 != comma)))

-- The loop on what is left of the value behind `offset`.
unfoldable pub parse_entries : ℕ → UsbDeviceFilter → List ℕ → Option UsbDeviceFilter
parse_entries zero filter rest = none
parse_entries (suc fuel) filter rest =
    if length rest == 0 then some filter else if is_malformed filter rest then none else do
      candidate ← parse_candidate rest
      let filter' = add_entry filter candidate in
          let result = parse_entries fuel filter' (drop 10 rest) in
          if length rest == 9 then some filter' else if length rest == 10 then none else result

-- The fuel is one more than the length: every round takes ten bytes.
unfoldable pub parse_usb_device_filter : Option (List ℕ) → Option UsbDeviceFilter
parse_usb_device_filter none = some []
parse_usb_device_filter (some value) =
    if length value == 0 || str_eq value (codes "-")
    then some []
    else if ltb 512 (length value)
    then none
    else parse_entries (suc (length value)) [] value
