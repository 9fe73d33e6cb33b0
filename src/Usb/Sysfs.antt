-- ===== src/Usb/Sysfs.antt =====
-- The names and the files of /sys/bus/usb: `is_safe_usb_sysfs_name`, `read_usb_sysfs_hex`,
-- `read_usb_device_id`, `read_usb_interface_driver` and `write_usb_driver_control`.
use dawnshell.Prelude.{
  ℕ, Bool, true, false, ◌&&◌, ◌||◌, Option, none, some, List, [], ◌∷◌, ◌++◌, ltb, leb, ◌==◌,
  if◌then◌else◌, ◌>>=◌, codes, str_eq, length, drop,
}
use dawnshell.Usb.Filter.{UsbDeviceId, colon, parse_usb_hex_word}
use dawnshell.Usb.Host.{UsbHost, einval, enametoolong, path_max}

-- `MAX_USB_SYSFS_NAME`.
abbrev pub max_usb_sysfs_name : ℕ
max_usb_sysfs_name = 128

abbrev pub is_safe_character : ℕ → Bool
is_safe_character c =
    leb 97 c && leb c 122
    || (leb 65 c && leb c 90
        || (leb 48 c && leb c 57 || (c == 45 || (c == 95 || (c == 46 || c == colon)))))

unfoldable pub all_safe : List ℕ → Bool
all_safe [] = true
all_safe (c ∷ value) = is_safe_character c && all_safe value

unfoldable pub is_safe_usb_sysfs_name : List ℕ → Bool
is_safe_usb_sysfs_name value =
    if length value == 0 || leb max_usb_sysfs_name (length value) then false else all_safe value

-- `snprintf` into a buffer of `PATH_MAX` bytes.
unfoldable pub sysfs_path : List ℕ → Option (List ℕ)
sysfs_path path = if leb path_max (length path) then none else some path

abbrev pub device_path : List ℕ → List ℕ → List ℕ
device_path name file = codes "/sys/bus/usb/devices/" ++ name ++ file

abbrev pub driver_path : List ℕ → List ℕ → List ℕ
driver_path driver_name control = codes "/sys/bus/usb/drivers/" ++ driver_name ++ 47 ∷ control

unfoldable pub all_blank : List ℕ → Bool
all_blank [] = true
all_blank (c ∷ rest) = (c == 10 || (c == 13 || (c == 32 || c == 9))) && all_blank rest

-- What `read_usb_sysfs_hex` makes of the bytes that it read.
unfoldable pub hex_contents : List ℕ → Option ℕ
hex_contents contents = if ltb (length contents) 4 || leb 32 (length contents) then none else do
  word ← parse_usb_hex_word contents
  if all_blank (drop 4 contents) then some word else none

-- What follows the last slash, `base` if there is none.
unfoldable pub after_slash : List ℕ → List ℕ → List ℕ
after_slash base [] = base
after_slash base (c ∷ target) = after_slash (if c == 47 then target else base) target

-- What stands before the first colon, if there is one.
unfoldable pub before_colon : List ℕ → Option (List ℕ)
before_colon [] = none
before_colon (c ∷ name) =
    if c == colon then some [] else do device ← before_colon name; some (c ∷ device)

module _ (H : UsbHost) where
  open H use {World, read, readlink, write}

  unfoldable pub read_usb_sysfs_hex : List ℕ → World → World × Option ℕ
  read_usb_sysfs_hex path w = let (w', contents) = read path w in (w', contents >>= hex_contents)

  -- The names of both files are checked before the first is read.
  unfoldable pub read_usb_device_id : List ℕ → World → World × Option UsbDeviceId
  read_usb_device_id device_name w =
      if is_safe_usb_sysfs_name device_name
      then elim (sysfs_path (device_path device_name (codes "/idVendor"))) [
        | none ↦ (w, none)
        | some vendor_path ↦ elim (sysfs_path (device_path device_name (codes "/idProduct"))) [
          | none ↦ (w, none)
          | some product_path ↦
              let (w1, vendor) = read_usb_sysfs_hex vendor_path w in
              elim vendor [
                | none ↦ (w1, none)
                | some v ↦
                    let (w2, product) = read_usb_sysfs_hex product_path w1 in
                    (w2, product >>= λ p. some (record { vendor = v; product = p }))
              ]
        ]
      ]
      else (w, none)

  -- The buffer for the driver's name has `MAX_USB_SYSFS_NAME` bytes.
  unfoldable pub read_usb_interface_driver : List ℕ → World → World × Option (List ℕ)
  read_usb_interface_driver interface_name w =
      if is_safe_usb_sysfs_name interface_name
      then elim (sysfs_path (device_path interface_name (codes "/driver"))) [
        | none ↦ (w, none)
        | some path ↦
            let (w', target) = readlink path w in
            (
              w',
              target >>= λ t.
                  let basename = after_slash t t in
                  if is_safe_usb_sysfs_name basename then some basename else none,
            )
      ]
      else (w, none)

  -- `none` for success, and the `errno` otherwise.
  unfoldable pub write_usb_driver_control : List ℕ → List ℕ → List ℕ → World → World × Option ℕ
  write_usb_driver_control driver_name control interface_name w =
      if is_safe_usb_sysfs_name driver_name
        && (is_safe_usb_sysfs_name interface_name
            && (str_eq control (codes "bind") || str_eq control (codes "unbind")))
      then elim (sysfs_path (driver_path driver_name control)) [
        | none ↦ (w, some enametoolong)
        | some path ↦ write path (interface_name ++ 10 ∷ []) w
      ]
      else (w, some einval)
