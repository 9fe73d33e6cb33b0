-- ===== src/Tests/Devices.antt =====
-- A filter of two devices, and a machine with one interface of the first.
use mathlib.Core.List.{Memᴰ}
use dawnshell.Prelude.{
  ℕ, ◌≡◌, refl, ap, ◌∙◌, ◌++◌, inr, true, none, some, List, [], ◌∷◌, arith, if◌then◌else◌, codes,
  str_eq,
}
use dawnshell.Usb.Confined.{IsUnbind, IsBind, IsKept}
use dawnshell.Usb.Filter.{UsbDeviceId, UsbDeviceFilter, usb_filter_matches}
use dawnshell.Usb.Host.{UsbHost}
use dawnshell.Usb.Records.{UsbInterfaceRecord, ExclusiveUsbState}
use dawnshell.Usb.RoundTrip.{new_nil, new_cons, IsUsbDeviceFilter}
use dawnshell.Usb.Sysfs.{driver_path}

abbrev pub hub : UsbDeviceId
hub = record { vendor = 0x1d6b; product = 0x0002 }

abbrev pub mouse : UsbDeviceId
mouse = record { vendor = 0x046d; product = 0xc52b }

abbrev pub two_devices : UsbDeviceFilter
two_devices = hub ∷ mouse ∷ []

pub two_devices-IsUsbDeviceFilter : IsUsbDeviceFilter two_devices
unfolding usb_filter_matches
two_devices-IsUsbDeviceFilter = record {
  distinct =
      new_cons (record { vendor = omega arith; product = omega arith }) refl
        (new_cons (record { vendor = omega arith; product = omega arith }) refl new_nil);
  short = omega arith;
}

-- The world is the list of the files that were written, the last one first.
abbrev pub bench : UsbHost
bench = record {
  World = List (List ℕ);
  opendir = λ path w. (w, inr (codes "usb1" ∷ codes "1-1:1.0" ∷ []));
  lstat = λ path w. (w, none);
  read = λ path w. (
    w,
    some (
        if str_eq path (codes "/sys/bus/usb/devices/1-1/idVendor")
        then codes "1d6b\n"
        else codes "0002\n"),
  );
  readlink = λ path w. (w, some (codes "../../bus/usb/drivers/usbhid"));
  write = λ path contents w. (path ∷ w, none);
  monotonic_millis = λ w. (w, 7);
  log = λ line w. w;
}

abbrev pub no_records : ExclusiveUsbState
no_records = record { records = []; last_scan_errno = 0 }

abbrev pub the_interface : UsbInterfaceRecord
the_interface = record {
  interface_name = codes "1-1:1.0";
  driver_name = codes "usbhid";
  detached = true;
  last_errno = 0;
  retry_after_ms = 0;
}

abbrev pub one_record : ExclusiveUsbState
one_record = record { records = the_interface ∷ []; last_scan_errno = 0 }

-- Every file that was written is the control file of a driver.
abbrev pub AreControls : List ℕ → List (List ℕ) → Type 0
AreControls control [] = Unit {0}
AreControls control (path ∷ w) =
    ((driver : List ℕ) × (path ≡ driver_path driver control)) × AreControls control w

pub bench-IsUnbind : IsKept bench (IsUnbind bench two_devices) (AreControls (codes "unbind"))
bench-IsUnbind = record {
  opendir = λ path w h. h;
  lstat = λ path w h. h;
  read = λ path w h. h;
  readlink = λ path w h. h;
  monotonic_millis = λ w h. h;
  log = λ line w h. h;
  write = λ path contents w a h. ((a.driver_name, a.control.path_lem), h);
}

-- The same machine while no interface has a driver. The world is the list of what was written, the last
-- write first.
abbrev pub unbound_bench : UsbHost
unbound_bench = record {
  World = List (List ℕ × List ℕ);
  opendir = λ path w. (w, inr []);
  lstat = λ path w. (w, none);
  read = λ path w. (w, none);
  readlink = λ path w. (w, none);
  write = λ path contents w. ((path, contents) ∷ w, none);
  monotonic_millis = λ w. (w, 7);
  log = λ line w. w;
}

-- Whatever was written is the interface of the record, to the bind file of its driver.
abbrev pub AreBinds : List (List ℕ × List ℕ) → Type 0
AreBinds [] = Unit {0}
AreBinds ((path, contents) ∷ w) =
    (path ≡ codes "/sys/bus/usb/drivers/usbhid/bind") × (contents ≡ codes "1-1:1.0\n") × AreBinds w

only_record : (r : UsbInterfaceRecord) → Memᴰ r one_record.records → r ≡ the_interface
only_record r (Memᴰ.head e) = e
only_record r (Memᴰ.tail m) = elim m [ ]

pub unbound_bench-IsBind : IsKept unbound_bench (IsBind one_record.records) AreBinds
unbound_bench-IsBind = record {
  opendir = λ path w h. h;
  lstat = λ path w h. h;
  read = λ path w h. h;
  readlink = λ path w h. h;
  monotonic_millis = λ w h. h;
  log = λ line w h. h;
  write = λ path contents w a h.
      let same = only_record a.restored a.recorded in
      (
        a.control.path_lem ∙ ap (λ r. driver_path r.driver_name (codes "bind")) same,
        a.control.contents_lem ∙ ap (λ r. r.interface_name ++ 10 ∷ []) same,
        h,
      );
}
