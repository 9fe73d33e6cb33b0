-- ===== src/Usb/Taking.antt =====
-- Taking devices writes only the unbind files of drivers, for interfaces that the filter names;
-- giving them back writes only bind files.
use dawnshell.Prelude.{ℕ, inl, inr, List, [], ◌∷◌, ltb, ◌==◌, Bool-cases, Option-cases, codes}
use dawnshell.Usb.Confined.{
  IsMatching, IsUnbind, IsKept, IsKept-read_usb_device_id, IsKept-read_usb_interface_driver,
  IsKept-write_usb_driver_control,
}
use dawnshell.Usb.Exclusive.{
  interface_device, is_disconnected, prune_disconnected_usb_interfaces, take_interface,
  reconcile_entry, reconcile_entries,
}
use dawnshell.Usb.Filter.{UsbDeviceId, UsbDeviceFilter, usb_filter_matches}
use dawnshell.Usb.Host.{UsbHost, enoent}
use dawnshell.Usb.Records.{UsbInterfaceRecord, get_or_create_usb_interface_record}
use dawnshell.Usb.Sysfs.{sysfs_path, device_path, read_usb_device_id, read_usb_interface_driver}
use dawnshell.Worker.Steps.{kept}

module _ (H : UsbHost) {Inv : H.World → Type 0} where
  IsKept-is_disconnected :
      {Allowed : List ℕ → List ℕ → Type 0}
      → IsKept H Allowed Inv
      → (r : UsbInterfaceRecord) (w : H.World) → Inv w
      → Inv (is_disconnected H r w).0
  unfolding is_disconnected
  IsKept-is_disconnected kept r w h =
      elim (Option-cases (sysfs_path (device_path r.interface_name []))) [
        | inl e ↦ rw (e, is_disconnected) h
        | inr (path, e) ↦
            rw (e, is_disconnected)
              (elim (Option-cases (H.lstat path w).1) [
                | inl e1 ↦ rw (e1, is_disconnected) (kept.lstat path w h)
                | inr (errno, e1) ↦
                    rw (e1, is_disconnected)
                      (elim (Bool-cases (errno == enoent)) [
                        | inl t ↦ rw (t, is_disconnected) (kept.log _ _ (kept.lstat path w h))
                        | inr t ↦ rw (t, is_disconnected) (kept.lstat path w h)
                      ])
              ])
      ]

  pub IsKept-prune :
      {Allowed : List ℕ → List ℕ → Type 0}
      → IsKept H Allowed Inv
      → (records : List UsbInterfaceRecord) (w : H.World) → Inv w
      → Inv (prune_disconnected_usb_interfaces H records w).0
  unfolding prune_disconnected_usb_interfaces
  IsKept-prune kept [] w h = h
  IsKept-prune kept (r ∷ records) w h =
      IsKept-prune kept records _ (IsKept-is_disconnected kept r w h)

  module _ (filter : UsbDeviceFilter) (kept : IsKept H (IsUnbind H filter) Inv) where
    IsKept-take_interface :
        (id : UsbDeviceId) (entry driver : List ℕ) (records : List UsbInterfaceRecord) (w : H.World)
        → IsMatching H filter entry
        → Inv w
        → Inv (take_interface H id entry driver records w).0
    unfolding take_interface
    IsKept-take_interface id entry driver records w m h =
        elim (Option-cases (get_or_create_usb_interface_record records entry)) [
          | inl e ↦ rw (e, take_interface) (kept.log _ w h)
          | inr ((r, records'), e) ↦
              rw (e, take_interface)
                (elim (Bool-cases (ltb (H.monotonic_millis w).1 r.retry_after_ms)) [
                  | inl t ↦ rw (t, take_interface) (kept.monotonic_millis w h)
                  | inr t ↦
                      rw (t, take_interface)
                        (kept.log _ _ (
                          IsKept-write_usb_driver_control H kept driver (codes "unbind") entry _
                            (λ path contents c. record {
                              interface_name = entry;
                              driver_name = driver;
                              matching = m;
                              control = c;
                            })
                            (kept.monotonic_millis w h)))
                ])
        ]

    IsKept-reconcile_entry :
        (entry : List ℕ) (records : List UsbInterfaceRecord) (w : H.World)
        → Inv w
        → Inv (reconcile_entry H filter entry records w).0
    unfolding reconcile_entry
    IsKept-reconcile_entry entry records w h = elim (Option-cases (interface_device entry)) [
      | inl e ↦ rw (e, reconcile_entry) h
      | inr (device, e) ↦
          rw (e, reconcile_entry)
            (let h1 = IsKept-read_usb_device_id H kept device w h in
              elim (Option-cases (read_usb_device_id H device w).1) [
                | inl e1 ↦ rw (e1, reconcile_entry) h1
                | inr (id, e1) ↦
                    rw (e1, reconcile_entry)
                      (elim (Bool-cases (usb_filter_matches filter id.vendor id.product)) [
                        | inr t ↦ rw (t, reconcile_entry) h1
                        | inl t ↦
                            rw (t, reconcile_entry)
                              (let w1 = (read_usb_device_id H device w).0 in
                                let h2 = IsKept-read_usb_interface_driver H kept entry w1 h1 in
                                elim (Option-cases (read_usb_interface_driver H entry w1).1) [
                                  | inl e2 ↦ rw (e2, reconcile_entry) h2
                                  | inr (driver, e2) ↦
                                      rw (e2, reconcile_entry)
                                        (IsKept-take_interface id entry driver records _
                                          (record {
                                            device_name = device;
                                            is_interface = e;
                                            before = w;
                                            id = id;
                                            was_read = e1;
                                            matches = t;
                                          })
                                          h2)
                                ])
                      ])
              ])
    ]

    pub IsKept-reconcile_entries :
        (entries : List (List ℕ)) (records : List UsbInterfaceRecord) (w : H.World)
        → Inv w
        → Inv (reconcile_entries H filter entries records w).0
    unfolding reconcile_entries
    IsKept-reconcile_entries [] records w h = h
    IsKept-reconcile_entries (entry ∷ entries) records w h =
        IsKept-reconcile_entries entries _ _ (IsKept-reconcile_entry entry records w h)
