-- ===== src/Usb/Records.antt =====
-- `UsbInterfaceRecord` and `ExclusiveUsbState`: finding, adding and changing the record of an
-- interface.
use dawnshell.Prelude.{
  ℕ, Bool, false, Option, none, some, List, [], ◌∷◌, ◌++◌, leb, if◌then◌else◌, str_eq, length,
}

pub record UsbInterfaceRecord : Type 0 where
  pub interface_name : List ℕ
  pub driver_name : List ℕ
  pub detached : Bool
  pub last_errno : ℕ
  pub retry_after_ms : ℕ

-- `records[0 .. count)`.
pub record ExclusiveUsbState : Type 0 where
  pub records : List UsbInterfaceRecord
  pub last_scan_errno : ℕ

abbrev pub max_usb_interface_records : ℕ
max_usb_interface_records = 64

unfoldable pub find_usb_interface_record :
    List UsbInterfaceRecord → List ℕ → Option UsbInterfaceRecord
find_usb_interface_record [] name = none
find_usb_interface_record (r ∷ records) name =
    if str_eq r.interface_name name then some r else find_usb_interface_record records name

-- The rest of `get_or_create_usb_interface_record`, behind the search.
unfoldable pub existing_or_new :
    Option UsbInterfaceRecord
    → List UsbInterfaceRecord
    → List ℕ
    → Option (UsbInterfaceRecord × List UsbInterfaceRecord)
existing_or_new (some r) records name = some (r, records)
existing_or_new none records name =
    let r : UsbInterfaceRecord = record {
      interface_name = name;
      driver_name = [];
      detached = false;
      last_errno = 0;
      retry_after_ms = 0;
    } in
    if leb max_usb_interface_records (length records) then none else some (r, records ++ r ∷ [])

-- The record that `get_or_create_usb_interface_record` points to, `none` for NULL, and the records
-- with it.
unfoldable pub get_or_create_usb_interface_record :
    List UsbInterfaceRecord → List ℕ → Option (UsbInterfaceRecord × List UsbInterfaceRecord)
get_or_create_usb_interface_record records name =
    existing_or_new (find_usb_interface_record records name) records name

-- A write through the pointer to the record of an interface, whose name stays.
unfoldable pub update_record :
    List ℕ → UsbInterfaceRecord → List UsbInterfaceRecord → List UsbInterfaceRecord
update_record name new [] = []
update_record name new (r ∷ records) =
    if str_eq r.interface_name name
    then record new { interface_name = r.interface_name } ∷ records
    else r ∷ update_record name new records
