-- ===== src/Usb/Bounds.antt =====
-- The records stay within their array, one for each interface.
use dawnshell.Prelude.{
  ℕ, suc, ◌≤◌, ◌<◌, ◌≡◌, refl, ap, inl, inr, false, none, List, [], ◌∷◌, ◌++◌, arith, Bool-cases,
  if-cases, str_eq, str_eq-sym, length, length-append,
}
use dawnshell.Usb.Records.{UsbInterfaceRecord, find_usb_interface_record, update_record}

-- No two records have the same name.
pub data AreDistinct : List UsbInterfaceRecord → Type 0 where
  distinct_nil : AreDistinct []
  distinct_cons :
      {r : UsbInterfaceRecord} {records : List UsbInterfaceRecord}
      → find_usb_interface_record records r.interface_name ≡ none
      → AreDistinct records
      → AreDistinct (r ∷ records)

pub record IsWf (records : List UsbInterfaceRecord) : Type 0 where
  pub short : length records ≤ 64
  pub distinct : AreDistinct records

find-update :
    (name other : List ℕ) (new : UsbInterfaceRecord) (records : List UsbInterfaceRecord)
    → find_usb_interface_record records other ≡ none
    → find_usb_interface_record (update_record name new records) other ≡ none
unfolding find_usb_interface_record update_record
find-update name other new [] e = refl
find-update name other new (r ∷ records) e =
    elim (if-cases (str_eq r.interface_name other) _ _ _ e) [
      | inl (_, bad) ↦ cc
      | inr (ne, rest) ↦ elim (Bool-cases (str_eq r.interface_name name)) [
        | inl t ↦ rw t (rw ne rest)
        | inr t ↦ rw t (rw ne (find-update name other new records rest))
      ]
    ]

update_record-AreDistinct :
    (name : List ℕ) (new : UsbInterfaceRecord) (records : List UsbInterfaceRecord)
    → AreDistinct records
    → AreDistinct (update_record name new records)
unfolding update_record
update_record-AreDistinct name new [] distinct_nil = distinct_nil
update_record-AreDistinct name new (r ∷ records) (distinct_cons ne rest) =
    elim (Bool-cases (str_eq r.interface_name name)) [
      | inl t ↦ rw t (distinct_cons ne rest)
      | inr t ↦ rw t (
          distinct_cons (find-update name r.interface_name new records ne)
            (update_record-AreDistinct name new records rest))
    ]

length-update_record :
    (name : List ℕ) (new : UsbInterfaceRecord) (records : List UsbInterfaceRecord)
    → length (update_record name new records) ≡ length records
unfolding update_record
length-update_record name new [] = refl
length-update_record name new (r ∷ records) = elim (Bool-cases (str_eq r.interface_name name)) [
  | inl t ↦ rw t refl
  | inr t ↦ rw t (ap suc (length-update_record name new records))
]

pub update_record-IsWf :
    (name : List ℕ) (new : UsbInterfaceRecord) (records : List UsbInterfaceRecord)
    → IsWf records
    → IsWf (update_record name new records)
update_record-IsWf name new records h = record {
  short = omega (arith, length-update_record name new records, h.short);
  distinct = update_record-AreDistinct name new records h.distinct;
}

find-append :
    (records : List UsbInterfaceRecord) (r : UsbInterfaceRecord) (name : List ℕ)
    → find_usb_interface_record records name ≡ none
    → str_eq r.interface_name name ≡ false
    → find_usb_interface_record (records ++ r ∷ []) name ≡ none
unfolding find_usb_interface_record
find-append [] r name e ne = rw ne refl
find-append (x ∷ records) r name e ne = elim (if-cases (str_eq x.interface_name name) _ _ _ e) [
  | inl (_, bad) ↦ cc
  | inr (t, rest) ↦ rw t (find-append records r name rest ne)
]

append-AreDistinct :
    (records : List UsbInterfaceRecord) (r : UsbInterfaceRecord)
    → find_usb_interface_record records r.interface_name ≡ none
    → AreDistinct records
    → AreDistinct (records ++ r ∷ [])
unfolding find_usb_interface_record
append-AreDistinct [] r e distinct_nil = distinct_cons refl distinct_nil
append-AreDistinct (x ∷ records) r e (distinct_cons ne rest) =
    elim (if-cases (str_eq x.interface_name r.interface_name) _ _ _ e) [
      | inl (_, bad) ↦ cc
      | inr (t, new) ↦
          distinct_cons (find-append records r x.interface_name ne (str_eq-sym _ _ t))
            (append-AreDistinct records r new rest)
    ]

pub append-IsWf :
    (records : List UsbInterfaceRecord) (r : UsbInterfaceRecord)
    → IsWf records
    → find_usb_interface_record records r.interface_name ≡ none
    → length records < 64
    → IsWf (records ++ r ∷ [])
append-IsWf records r h new room = record {
  short = omega (arith, length-append records (r ∷ []), room);
  distinct = append-AreDistinct records r new h.distinct;
}
