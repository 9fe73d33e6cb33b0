-- ===== src/Tests/Usb.antt =====
-- The device filter and one round on the machine of Devices.antt.
use dawnshell.Prelude.{◌≡◌, refl, some, [], ◌∷◌, arith, codes, str_eq}
use dawnshell.Tests.Devices.{
  two_devices, two_devices-IsUsbDeviceFilter, bench, no_records, one_record, AreControls,
  bench-IsUnbind, unbound_bench, AreBinds, unbound_bench-IsBind,
}
use dawnshell.Usb.Accepted.{parse_usb_device_filter-IsUsbDeviceFilter}
use dawnshell.Usb.Bounds.{distinct_nil, distinct_cons, IsWf}
use dawnshell.Usb.Exclusive.{
  interface_device, is_disconnected, prune_disconnected_usb_interfaces, unbound, take_interface,
  reconcile_entry, reconcile_entries, reconcile_exclusive_usb, is_present, restore_present,
  restore_record, restore_records, restore_exclusive_usb,
}
use dawnshell.Usb.Filter.{
  hex_digit_value, parse_hex_digits, parse_usb_hex_word, usb_filter_matches,
  parse_usb_device_filter,
}
use dawnshell.Usb.Giving.{IsKept-reconcile_exclusive_usb, IsKept-restore_exclusive_usb}
use dawnshell.Usb.Records.{
  find_usb_interface_record, existing_or_new, get_or_create_usb_interface_record, update_record,
}
use dawnshell.Usb.RoundTrip.{IsUsbDeviceFilter, parse_usb_device_filter-show}
use dawnshell.Usb.Rounds.{reconcile_exclusive_usb-IsWf}
use dawnshell.Usb.Sysfs.{
  all_safe, is_safe_usb_sysfs_name, sysfs_path, all_blank, hex_contents, after_slash, before_colon,
  read_usb_sysfs_hex, read_usb_device_id, read_usb_interface_driver, write_usb_driver_control,
}

parse_usb_device_filter-show_example :
    parse_usb_device_filter (some (codes "1d6b:0002,046d:c52b")) ≡ some two_devices
parse_usb_device_filter-show_example =
    parse_usb_device_filter-show two_devices two_devices-IsUsbDeviceFilter

two_devices_parsed : parse_usb_device_filter (some (codes "1d6b:0002,046d:c52b")) ≡ some two_devices
two_devices_parsed = parse_usb_device_filter-show two_devices two_devices-IsUsbDeviceFilter

parsed-IsUsbDeviceFilter : IsUsbDeviceFilter two_devices
parsed-IsUsbDeviceFilter =
    parse_usb_device_filter-IsUsbDeviceFilter (some (codes "1d6b:0002,046d:c52b")) two_devices
      two_devices_parsed

one_record-IsWf : IsWf one_record.records
unfolding find_usb_interface_record
one_record-IsWf = record { short = omega arith; distinct = distinct_cons refl distinct_nil }

reconcile_exclusive_usb-IsWf_example :
    IsWf (reconcile_exclusive_usb bench two_devices one_record []).1.records
reconcile_exclusive_usb-IsWf_example =
    reconcile_exclusive_usb-IsWf bench two_devices one_record [] one_record-IsWf

-- The round unbinds the interface.
round_runs :
    (reconcile_exclusive_usb bench two_devices no_records []).0
    ≡ codes "/sys/bus/usb/drivers/usbhid/unbind" ∷ []
unfolding reconcile_exclusive_usb reconcile_entries reconcile_entry take_interface interface_device
    before_colon is_safe_usb_sysfs_name all_safe read_usb_device_id sysfs_path read_usb_sysfs_hex
    hex_contents str_eq parse_usb_hex_word hex_digit_value all_blank usb_filter_matches
    read_usb_interface_driver after_slash get_or_create_usb_interface_record existing_or_new
    is_disconnected prune_disconnected_usb_interfaces unbound parse_hex_digits
    find_usb_interface_record update_record write_usb_driver_control
round_runs = refl

IsKept-reconcile_exclusive_usb_example :
    AreControls (codes "unbind") (reconcile_exclusive_usb bench two_devices no_records []).0
IsKept-reconcile_exclusive_usb_example =
    IsKept-reconcile_exclusive_usb bench two_devices no_records [] bench-IsUnbind tt

-- Giving the interface back writes.
restore_runs :
    (restore_exclusive_usb unbound_bench one_record []).0
    ≡ (codes "/sys/bus/usb/drivers/usbhid/bind", codes "1-1:1.0\n") ∷ []
unfolding restore_exclusive_usb restore_records restore_record is_present restore_present
    read_usb_interface_driver sysfs_path is_safe_usb_sysfs_name all_safe write_usb_driver_control
    str_eq
restore_runs = refl

IsKept-restore_exclusive_usb_example :
    AreBinds (restore_exclusive_usb unbound_bench one_record []).0
    × ((restore_exclusive_usb unbound_bench one_record []).1.records ≡ [])
IsKept-restore_exclusive_usb_example =
    IsKept-restore_exclusive_usb unbound_bench one_record unbound_bench-IsBind [] tt
