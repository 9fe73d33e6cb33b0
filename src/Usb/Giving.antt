-- ===== src/Usb/Giving.antt =====
-- A whole round of taking devices, and giving them back: what both write.
use mathlib.Core.List.{Memᴰ}
use dawnshell.Prelude.{
  ℕ, ◌≡◌, true, refl, inl, inr, List, [], ◌∷◌, ◌!=◌, Bool-cases, Option-cases, Either-cases, codes,
}
use dawnshell.Usb.Confined.{
  IsUnbind, IsBind, IsKept, IsKept-read_usb_interface_driver, IsKept-write_usb_driver_control,
}
use dawnshell.Usb.Exclusive.{
  prune_disconnected_usb_interfaces, reconcile_exclusive_usb, is_present, restore_present,
  restore_record, restore_records, restore_exclusive_usb,
}
use dawnshell.Usb.Filter.{UsbDeviceFilter}
use dawnshell.Usb.Host.{UsbHost}
use dawnshell.Usb.Records.{UsbInterfaceRecord, ExclusiveUsbState}
use dawnshell.Usb.Sysfs.{sysfs_path, device_path, read_usb_interface_driver}
use dawnshell.Usb.Taking.{IsKept-prune, IsKept-reconcile_entries}

module _ (H : UsbHost) {Inv : H.World → Type 0} where
  -- Whatever is kept by every call that only looks or logs, and by every write of the name of an
  -- interface of a device that the filter names to the unbind file of a driver, both names safe, is
  -- kept by a round of taking devices: it makes no other write.
  pub IsKept-reconcile_exclusive_usb :
      (filter : UsbDeviceFilter) (state : ExclusiveUsbState) (w : H.World)
      → IsKept H (IsUnbind H filter) Inv
      → Inv w
      → Inv (reconcile_exclusive_usb H filter state w).0
  unfolding reconcile_exclusive_usb
  IsKept-reconcile_exclusive_usb filter state w k h =
      let w1 = (prune_disconnected_usb_interfaces H state.records w).0 in
      let h1 = IsKept-prune H k state.records w h in
      let h2 = k.opendir (codes "/sys/bus/usb/devices") w1 h1 in
      elim (Either-cases (H.opendir (codes "/sys/bus/usb/devices") w1).1) [
        | inl (errno, e) ↦
            rw (e, reconcile_exclusive_usb)
              (elim (Bool-cases (state.last_scan_errno != errno)) [
                | inl t ↦ rw t (k.log _ _ h2)
                | inr t ↦ rw t h2
              ])
        | inr (names, e) ↦
            rw (e, reconcile_exclusive_usb)
              (IsKept-reconcile_entries H filter k names _ _
                (elim (Bool-cases (state.last_scan_errno != 0)) [
                  | inl t ↦ rw t (k.log _ _ h2)
                  | inr t ↦ rw t h2
                ]))
      ]

  IsKept-is_present :
      {Allowed : List ℕ → List ℕ → Type 0}
      → IsKept H Allowed Inv
      → (r : UsbInterfaceRecord) (w : H.World) → Inv w
      → Inv (is_present H r w).0
  unfolding is_present
  IsKept-is_present k r w h = elim (Option-cases (sysfs_path (device_path r.interface_name []))) [
    | inl e ↦ rw (e, is_present) h
    | inr (path, e) ↦
        rw (e, is_present)
          (elim (Option-cases (H.lstat path w).1) [
            | inl e1 ↦ rw (e1, is_present) (k.lstat path w h)
            | inr (errno, e1) ↦ rw (e1, is_present) (k.lstat path w h)
          ])
  ]

  module _ (state : ExclusiveUsbState) (k : IsKept H (IsBind state.records) Inv) where
    IsKept-restore_present :
        (r : UsbInterfaceRecord) (w : H.World)
        → Memᴰ r state.records
        → r.detached ≡ true
        → Inv w
        → Inv (restore_present H r w)
    unfolding restore_present
    IsKept-restore_present r w m d h =
        let h1 = IsKept-read_usb_interface_driver H k r.interface_name w h in
        elim (Option-cases (read_usb_interface_driver H r.interface_name w).1) [
          | inr (driver, e) ↦ rw (e, restore_present) (k.log _ _ h1)
          | inl e ↦
              rw (e, restore_present)
                (k.log _ _ (
                  IsKept-write_usb_driver_control H k r.driver_name (codes "bind") r.interface_name
                    _
                    (λ path contents c. record {
                      restored = r;
                      recorded = m;
                      was_detached = d;
                      control = c;
                    })
                    h1))
        ]

    IsKept-restore_record :
        (r : UsbInterfaceRecord) (w : H.World)
        → Memᴰ r state.records
        → Inv w
        → Inv (restore_record H r w)
    unfolding restore_record is_present restore_present
    IsKept-restore_record r w m h = elim (Bool-cases r.detached) [
      | inr d ↦ rw (d, restore_record) h
      | inl d ↦
          let h1 = IsKept-is_present k r w h in
          rw (d, restore_record)
            (elim (Bool-cases (is_present H r w).1) [
              | inl p ↦ rw (p, restore_record) (IsKept-restore_present r _ m d h1)
              | inr p ↦ rw (p, restore_record) (k.log _ _ h1)
            ])
    ]

    IsKept-restore_records :
        (records : List UsbInterfaceRecord) (w : H.World)
        → ((r : UsbInterfaceRecord) → Memᴰ r records → Memᴰ r state.records)
        → Inv w
        → Inv (restore_records H records w)
    unfolding restore_records
    IsKept-restore_records [] w within h = h
    IsKept-restore_records (r ∷ records) w within h =
        IsKept-restore_record r _ (within r (Memᴰ.head refl))
          (IsKept-restore_records records w (λ r' m. within r' (Memᴰ.tail m)) h)

    -- Giving devices back makes no write but that of the interface name of a record, of one that was
    -- detached, to the bind file of the driver that the same record names, both names safe, and leaves
    -- no record.
    pub IsKept-restore_exclusive_usb :
        (w : H.World)
        → Inv w
        → Inv (restore_exclusive_usb H state w).0
          × ((restore_exclusive_usb H state w).1.records ≡ [])
    unfolding restore_exclusive_usb
    IsKept-restore_exclusive_usb w h = (IsKept-restore_records state.records w (λ r m. m) h, refl)
