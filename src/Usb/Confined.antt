-- ===== src/Usb/Confined.antt =====
-- Which files moving USB devices writes, and what: whatever all its calls keep, it keeps.
use mathlib.Core.List.{Memᴰ}
use dawnshell.Prelude.{
  ℕ, ◌≡◌, refl, inl, inr, true, ◌||◌, some, List, [], ◌∷◌, ◌++◌, leb, Bool-cases, Option-cases,
  ◌>>=◌, codes, str_eq, length,
}
use dawnshell.Usb.Exclusive.{interface_device}
use dawnshell.Usb.Filter.{UsbDeviceId, UsbDeviceFilter, usb_filter_matches}
use dawnshell.Usb.Host.{Event, UsbHost, path_max}
use dawnshell.Usb.Records.{UsbInterfaceRecord}
use dawnshell.Usb.Sysfs.{
  is_safe_usb_sysfs_name, sysfs_path, device_path, driver_path, hex_contents, read_usb_sysfs_hex,
  read_usb_device_id, read_usb_interface_driver, write_usb_driver_control,
}

-- A device that the filter names was read for the interface.
pub record IsMatching (H : UsbHost) (filter : UsbDeviceFilter) (entry : List ℕ) : Type 0 where
  pub device_name : List ℕ
  pub is_interface : interface_device entry ≡ some device_name
  pub before : H.World
  pub id : UsbDeviceId
  pub was_read : (read_usb_device_id H device_name before).1 ≡ some id
  pub matches : usb_filter_matches filter id.vendor id.product ≡ true

-- A write of the interface's name to the control file of the driver, both names safe.
pub record IsControl (driver_name control interface_name path contents : List ℕ) : Type 0 where
  pub safe_driver : is_safe_usb_sysfs_name driver_name ≡ true
  pub safe_interface : is_safe_usb_sysfs_name interface_name ≡ true
  pub path_lem : path ≡ driver_path driver_name control
  pub contents_lem : contents ≡ interface_name ++ 10 ∷ []

-- The writes that taking devices may make, and those that giving them back may make.
pub record IsUnbind (H : UsbHost) (filter : UsbDeviceFilter) (path contents : List ℕ) : Type 0 where
  pub interface_name : List ℕ
  pub driver_name : List ℕ
  pub matching : IsMatching H filter interface_name
  pub control : IsControl driver_name (codes "unbind") interface_name path contents

-- The name of the interface of a record that was detached, written to the bind file of its own driver.
pub record IsBind (records : List UsbInterfaceRecord) (path contents : List ℕ) : Type 0 where
  pub restored : UsbInterfaceRecord
  pub recorded : Memᴰ restored records
  pub was_detached : restored.detached ≡ true
  pub control : IsControl restored.driver_name (codes "bind") restored.interface_name path contents

-- Every call keeps `Inv`, a write only if it is `Allowed`.
pub record IsKept (H : UsbHost) (Allowed : List ℕ → List ℕ → Type 0) (Inv : H.World → Type 0)
    : Type 0 where
  pub opendir : (path : List ℕ) (w : H.World) → Inv w → Inv (H.opendir path w).0
  pub lstat : (path : List ℕ) (w : H.World) → Inv w → Inv (H.lstat path w).0
  pub read : (path : List ℕ) (w : H.World) → Inv w → Inv (H.read path w).0
  pub readlink : (path : List ℕ) (w : H.World) → Inv w → Inv (H.readlink path w).0
  pub monotonic_millis : (w : H.World) → Inv w → Inv (H.monotonic_millis w).0
  pub log : (line : Event) (w : H.World) → Inv w → Inv (H.log line w)
  pub write :
      (path contents : List ℕ) (w : H.World)
      → Allowed path contents
      → Inv w
      → Inv (H.write path contents w).0

module _ (H : UsbHost) {Allowed : List ℕ → List ℕ → Type 0} {Inv : H.World → Type 0}
    (kept : IsKept H Allowed Inv) where
  pub IsKept-read_usb_device_id :
      (name : List ℕ) (w : H.World) → Inv w → Inv (read_usb_device_id H name w).0
  unfolding read_usb_device_id read_usb_sysfs_hex
  IsKept-read_usb_device_id name w h = elim (Bool-cases (is_safe_usb_sysfs_name name)) [
    | inr e ↦ rw e h
    | inl e ↦ rw e (elim (Option-cases (sysfs_path (device_path name (codes "/idVendor")))) [
      | inl e1 ↦ rw e1 h
      | inr (vendor, e1) ↦
          rw e1 (elim (Option-cases (sysfs_path (device_path name (codes "/idProduct")))) [
            | inl e2 ↦ rw e2 h
            | inr (product, e2) ↦
                rw e2 (elim (Option-cases ((H.read vendor w).1 >>= hex_contents)) [
                  | inl e3 ↦ rw e3 (kept.read vendor w h)
                  | inr (v, e3) ↦ rw e3 (kept.read product _ (kept.read vendor w h))
                ])
          ])
    ])
  ]

  pub IsKept-read_usb_interface_driver :
      (name : List ℕ) (w : H.World) → Inv w → Inv (read_usb_interface_driver H name w).0
  unfolding read_usb_interface_driver
  IsKept-read_usb_interface_driver name w h = elim (Bool-cases (is_safe_usb_sysfs_name name)) [
    | inr e ↦ rw e h
    | inl e ↦ rw e (elim (Option-cases (sysfs_path (device_path name (codes "/driver")))) [
      | inl e1 ↦ rw e1 h
      | inr (path, e1) ↦ rw e1 (kept.readlink path w h)
    ])
  ]

  pub IsKept-write_usb_driver_control :
      (driver control interface_name : List ℕ) (w : H.World)
      → ((path contents : List ℕ)
          → IsControl driver control interface_name path contents
          → Allowed path contents)
      → Inv w
      → Inv (write_usb_driver_control H driver control interface_name w).0
  unfolding write_usb_driver_control sysfs_path
  IsKept-write_usb_driver_control driver control name w allowed h =
      elim (Bool-cases (is_safe_usb_sysfs_name driver)) [
        | inr e ↦ rw e h
        | inl e ↦ elim (Bool-cases (is_safe_usb_sysfs_name name)) [
          | inr e' ↦ rw e (rw e' h)
          | inl e' ↦ rw e (
              rw e'
                (elim (Bool-cases
                  (str_eq control (codes "bind") || str_eq control (codes "unbind"))) [
                    | inr k ↦ rw k h
                    | inl k ↦
                        rw k
                          (elim (Bool-cases (leb path_max (length (driver_path driver control)))) [
                            | inl l ↦ rw l h
                            | inr l ↦ rw l (
                                kept.write _ _ w
                                  (allowed _ _ (record {
                                    safe_driver = e;
                                    safe_interface = e';
                                    path_lem = refl;
                                    contents_lem = refl;
                                  }))
                                  h)
                          ])
                  ]))
        ]
      ]
