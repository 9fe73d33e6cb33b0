-- ===== src/Usb/Exclusive.antt =====
-- Taking the interfaces of matching devices from their drivers, `reconcile_exclusive_usb`, and giving
-- them back, `restore_exclusive_usb`. The names that `readdir` gives are those at the time of
-- `opendir`.
use dawnshell.Prelude.{
  ℕ, ◌+◌, inl, inr, Bool, true, false, ◌&&◌, Option, none, some, List, [], ◌∷◌, ltb, ◌==◌, ◌!=◌,
  if◌then◌else◌, ◌>>=◌, codes, length,
}
use dawnshell.Usb.Filter.{UsbDeviceId, UsbDeviceFilter, usb_filter_matches}
use dawnshell.Usb.Host.{
  Event, exclusive_device_removed, exclusive_scan_failed, exclusive_scan_recovered,
  exclusive_record_limit, exclusive_unbound, exclusive_unbind_failed, restore_device_absent,
  restore_already_bound, restored, exclusive_restore_failed, UsbHost, enoent,
}
use dawnshell.Usb.Records.{
  UsbInterfaceRecord, ExclusiveUsbState, get_or_create_usb_interface_record, update_record,
}
use dawnshell.Usb.Sysfs.{
  max_usb_sysfs_name, is_safe_usb_sysfs_name, sysfs_path, device_path, before_colon,
  read_usb_device_id, read_usb_interface_driver, write_usb_driver_control,
}

-- `kExclusiveUsbRetryIntervalMs`.
abbrev pub retry_interval_ms : ℕ
retry_interval_ms = 30000

-- The name of the device that an entry of /sys/bus/usb/devices is an interface of.
unfoldable pub interface_device : List ℕ → Option (List ℕ)
interface_device entry = do
  device_name ← before_colon entry
  (if is_safe_usb_sysfs_name entry
        && (length device_name != 0 && ltb (length device_name) max_usb_sysfs_name)
      then some device_name
      else none)

module _ (H : UsbHost) where
  open H use {World, opendir, lstat, monotonic_millis, log}

  -- The test of `prune_disconnected_usb_interfaces` on one record: whether it is dropped.
  unfoldable pub is_disconnected : UsbInterfaceRecord → World → World × Bool
  is_disconnected r w = elim (sysfs_path (device_path r.interface_name [])) [
    | none ↦ (w, true)
    | some path ↦
        let (w', errno) = lstat path w in
        elim errno [
          | none ↦ (w', false)
          | some e ↦
              if e == enoent
              then (log (exclusive_device_removed r.interface_name) w', true)
              else (w', false)
        ]
  ]

  -- The loop, on the records from `index` on; a record that is dropped has the ones behind it moved
  -- up by `remove_usb_interface_record`.
  unfoldable pub prune_disconnected_usb_interfaces :
      List UsbInterfaceRecord → World → World × List UsbInterfaceRecord
  prune_disconnected_usb_interfaces [] w = (w, [])
  prune_disconnected_usb_interfaces (r ∷ records) w =
      let (w1, gone) = is_disconnected r w in
      let (w2, rest) = prune_disconnected_usb_interfaces records w1 in
      (w2, if gone then rest else r ∷ rest)

  -- The record after the attempt to unbind the interface, and its line in the log.
  unfoldable pub unbound :
      UsbDeviceId → List ℕ → List ℕ → ℕ → UsbInterfaceRecord → Option ℕ → UsbInterfaceRecord × Event
  unbound id entry driver_name now r none = (
    record r { driver_name = driver_name; detached = true; last_errno = 0; retry_after_ms = 0 },
    exclusive_unbound id.vendor id.product entry driver_name,
  )
  unbound id entry driver_name now r (some errno) = (
    record r {
      driver_name = driver_name;
      detached = false;
      last_errno = errno;
      retry_after_ms = now + retry_interval_ms;
    },
    exclusive_unbind_failed id.vendor id.product entry driver_name errno,
  )

  -- An interface of a matching device that has a driver.
  unfoldable pub take_interface :
      UsbDeviceId
      → List ℕ
      → List ℕ
      → List UsbInterfaceRecord
      → World
      → World × List UsbInterfaceRecord
  take_interface id entry driver_name records w =
      elim (get_or_create_usb_interface_record records entry) [
        | none ↦ (log (exclusive_record_limit entry) w, records)
        | some (r, records') ↦
            let (w1, now) = monotonic_millis w in
            if ltb now r.retry_after_ms
            then (w1, records')
            else let (w2, errno) =
                write_usb_driver_control H driver_name (codes "unbind") entry w1 in
              let (r', line) = unbound id entry driver_name now r errno in
              (log line w2, update_record entry r' records')
      ]

  -- The body of the loop over the directory.
  unfoldable pub reconcile_entry :
      UsbDeviceFilter → List ℕ → List UsbInterfaceRecord → World → World × List UsbInterfaceRecord
  reconcile_entry filter entry records w = elim (interface_device entry) [
    | none ↦ (w, records)
    | some device_name ↦
        let (w1, id) = read_usb_device_id H device_name w in
        elim id [
          | none ↦ (w1, records)
          | some i ↦
              if usb_filter_matches filter i.vendor i.product
              then (let (w2, driver) = read_usb_interface_driver H entry w1 in
                  elim driver [
                    | none ↦ (w2, records)
                    | some driver_name ↦ take_interface i entry driver_name records w2
                  ])
              else (w1, records)
        ]
  ]

  unfoldable pub reconcile_entries :
      UsbDeviceFilter
      → List (List ℕ)
      → List UsbInterfaceRecord
      → World
      → World × List UsbInterfaceRecord
  reconcile_entries filter [] records w = (w, records)
  reconcile_entries filter (entry ∷ entries) records w =
      let (w', records') = reconcile_entry filter entry records w in
      reconcile_entries filter entries records' w'

  unfoldable pub reconcile_exclusive_usb :
      UsbDeviceFilter → ExclusiveUsbState → World → World × ExclusiveUsbState
  reconcile_exclusive_usb filter state w =
      let (w1, records) = prune_disconnected_usb_interfaces state.records w in
      let (w2, entries) = opendir (codes "/sys/bus/usb/devices") w1 in
      elim entries [
        | inl errno ↦ (
          if state.last_scan_errno != errno then log (exclusive_scan_failed errno) w2 else w2,
          record { records = records; last_scan_errno = errno },
        )
        | inr names ↦
            let w3 = if state.last_scan_errno != 0 then log exclusive_scan_recovered w2 else w2 in
            let (w4, records') = reconcile_entries filter names records w3 in
            (w4, record { records = records'; last_scan_errno = 0 })
      ]

  -- Whether the interface of a detached record is there.
  unfoldable pub is_present : UsbInterfaceRecord → World → World × Bool
  is_present r w = elim (sysfs_path (device_path r.interface_name [])) [
    | none ↦ (w, false)
    | some path ↦
        let (w', errno) = lstat path w in elim errno [ none ↦ (w', true) | some e ↦ (w', false) ]
  ]

  abbrev restore_line : UsbInterfaceRecord → Option ℕ → Event
  restore_line r none = restored r.interface_name r.driver_name
  restore_line r (some errno) = exclusive_restore_failed r.interface_name r.driver_name errno

  -- The body of the loop of `restore_exclusive_usb`.
  unfoldable pub restore_present : UsbInterfaceRecord → World → World
  restore_present r w =
      let (w1, current) = read_usb_interface_driver H r.interface_name w in
      elim current [
        | some driver ↦ log (restore_already_bound r.interface_name r.driver_name driver) w1
        | none ↦
            let (w2, errno) =
              write_usb_driver_control H r.driver_name (codes "bind") r.interface_name w1 in
            log (restore_line r errno) w2
      ]

  unfoldable pub restore_record : UsbInterfaceRecord → World → World
  restore_record r w =
      if r.detached
      then (let (w1, present) = is_present r w in
          if present
          then restore_present r w1
          else log (restore_device_absent r.interface_name r.driver_name) w1)
      else w

  -- The loop runs from the last record to the first.
  unfoldable pub restore_records : List UsbInterfaceRecord → World → World
  restore_records [] w = w
  restore_records (r ∷ records) w = restore_record r (restore_records records w)

  unfoldable pub restore_exclusive_usb : ExclusiveUsbState → World → World × ExclusiveUsbState
  restore_exclusive_usb state w =
      (restore_records state.records w, record { records = []; last_scan_errno = 0 })
