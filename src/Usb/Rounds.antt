-- ===== src/Usb/Rounds.antt =====
-- A round of taking devices keeps the records well formed.
use mathlib.Core.Option.{some-injective}
use mathlib.Core.Path.{subst}
use dawnshell.Prelude.{
  ℕ, ◌≤◌, ◌≡◌, refl, ap, inl, inr, Option, none, some, List, [], ◌∷◌, arith, ltb, leb, Bool-cases,
  Option-cases, if-cases, Either-cases, codes, str_eq, length,
}
use dawnshell.Usb.Bounds.{
  AreDistinct, distinct_nil, distinct_cons, IsWf, update_record-IsWf, append-IsWf,
}
use dawnshell.Usb.Exclusive.{
  interface_device, is_disconnected, prune_disconnected_usb_interfaces, take_interface,
  reconcile_entry, reconcile_entries, reconcile_exclusive_usb,
}
use dawnshell.Usb.Filter.{UsbDeviceId, UsbDeviceFilter, usb_filter_matches}
use dawnshell.Usb.Host.{UsbHost}
use dawnshell.Usb.Records.{
  UsbInterfaceRecord, ExclusiveUsbState, max_usb_interface_records, find_usb_interface_record,
  existing_or_new, get_or_create_usb_interface_record,
}
use dawnshell.Usb.Sysfs.{read_usb_device_id, read_usb_interface_driver}

IsWf-existing_or_new :
    (found : Option UsbInterfaceRecord) (records : List UsbInterfaceRecord) (name : List ℕ)
    (r : UsbInterfaceRecord) (records' : List UsbInterfaceRecord)
    → IsWf records
    → find_usb_interface_record records name ≡ found
    → existing_or_new found records name ≡ some (r, records')
    → IsWf records'
unfolding existing_or_new
IsWf-existing_or_new (some x) records name r records' h f e =
    subst IsWf (ap (λ p. p.1) (some-injective (x, records) (r, records') e)) h
IsWf-existing_or_new none records name r records' h f e =
    elim (if-cases (leb max_usb_interface_records (length records)) _ _ _ e) [
      | inl (_, bad) ↦ cc
      | inr (room, e') ↦
          subst IsWf (ap (λ p. p.1) (some-injective _ (r, records') e'))
            (append-IsWf records _ h f (ground arith))
    ]

IsWf-get_or_create :
    (records : List UsbInterfaceRecord) (name : List ℕ) (r : UsbInterfaceRecord)
    (records' : List UsbInterfaceRecord)
    → IsWf records
    → get_or_create_usb_interface_record records name ≡ some (r, records')
    → IsWf records'
unfolding get_or_create_usb_interface_record
IsWf-get_or_create records name r records' h e =
    IsWf-existing_or_new _ records name r records' h refl e

module _ (H : UsbHost) where
  find-prune :
      (records : List UsbInterfaceRecord) (w : H.World) (name : List ℕ)
      → find_usb_interface_record records name ≡ none
      → find_usb_interface_record (prune_disconnected_usb_interfaces H records w).1 name ≡ none
  unfolding prune_disconnected_usb_interfaces find_usb_interface_record
  find-prune [] w name e = refl
  find-prune (r ∷ records) w name e = elim (if-cases (str_eq r.interface_name name) _ _ _ e) [
    | inl (_, bad) ↦ cc
    | inr (ne, rest) ↦
        let later = find-prune records (is_disconnected H r w).0 name rest in
        elim (Bool-cases (is_disconnected H r w).1) [
          | inl t ↦ rw t later
          | inr t ↦ rw t (rw ne later)
        ]
  ]

  length-prune :
      (records : List UsbInterfaceRecord) (w : H.World)
      → length (prune_disconnected_usb_interfaces H records w).1 ≤ length records
  unfolding prune_disconnected_usb_interfaces
  length-prune [] w = omega arith
  length-prune (r ∷ records) w =
      let later = length-prune records (is_disconnected H r w).0 in
      elim (Bool-cases (is_disconnected H r w).1) [
        | inl t ↦ rw t (omega (arith, later))
        | inr t ↦ rw t (omega (arith, later))
      ]

  AreDistinct-prune :
      (records : List UsbInterfaceRecord) (w : H.World)
      → AreDistinct records
      → AreDistinct (prune_disconnected_usb_interfaces H records w).1
  unfolding prune_disconnected_usb_interfaces
  AreDistinct-prune [] w distinct_nil = distinct_nil
  AreDistinct-prune (r ∷ records) w (distinct_cons ne rest) =
      let w' = (is_disconnected H r w).0 in
      let later = AreDistinct-prune records w' rest in
      elim (Bool-cases (is_disconnected H r w).1) [
        | inl t ↦ rw t later
        | inr t ↦ rw t (distinct_cons (find-prune records w' r.interface_name ne) later)
      ]

  IsWf-take_interface :
      (id : UsbDeviceId) (entry driver : List ℕ) (records : List UsbInterfaceRecord) (w : H.World)
      → IsWf records
      → IsWf (take_interface H id entry driver records w).1
  unfolding take_interface
  IsWf-take_interface id entry driver records w h =
      elim (Option-cases (get_or_create_usb_interface_record records entry)) [
        | inl e ↦ rw (e, take_interface) h
        | inr ((r, records'), e) ↦
            rw (e, take_interface)
              (let h' = IsWf-get_or_create records entry r records' h e in
                elim (Bool-cases (ltb (H.monotonic_millis w).1 r.retry_after_ms)) [
                  | inl t ↦ rw (t, take_interface) h'
                  | inr t ↦ rw (t, take_interface) (update_record-IsWf entry _ records' h')
                ])
      ]

  IsWf-reconcile_entry :
      (filter : UsbDeviceFilter) (entry : List ℕ) (records : List UsbInterfaceRecord) (w : H.World)
      → IsWf records
      → IsWf (reconcile_entry H filter entry records w).1
  unfolding reconcile_entry
  IsWf-reconcile_entry filter entry records w h = elim (Option-cases (interface_device entry)) [
    | inl e ↦ rw (e, reconcile_entry) h
    | inr (device, e) ↦
        rw (e, reconcile_entry)
          (elim (Option-cases (read_usb_device_id H device w).1) [
            | inl e1 ↦ rw (e1, reconcile_entry) h
            | inr (id, e1) ↦
                rw (e1, reconcile_entry)
                  (elim (Bool-cases (usb_filter_matches filter id.vendor id.product)) [
                    | inr t ↦ rw (t, reconcile_entry) h
                    | inl t ↦
                        rw (t, reconcile_entry)
                          (let w1 = (read_usb_device_id H device w).0 in
                            elim (Option-cases (read_usb_interface_driver H entry w1).1) [
                              | inl e2 ↦ rw (e2, reconcile_entry) h
                              | inr (driver, e2) ↦
                                  rw (e2, reconcile_entry)
                                    (IsWf-take_interface id entry driver records _ h)
                            ])
                  ])
          ])
  ]

  IsWf-reconcile_entries :
      (filter : UsbDeviceFilter) (entries : List (List ℕ)) (records : List UsbInterfaceRecord)
      (w : H.World)
      → IsWf records
      → IsWf (reconcile_entries H filter entries records w).1
  unfolding reconcile_entries
  IsWf-reconcile_entries filter [] records w h = h
  IsWf-reconcile_entries filter (entry ∷ entries) records w h =
      IsWf-reconcile_entries filter entries _ _ (IsWf-reconcile_entry filter entry records w h)

  -- A round of taking devices keeps the records within their array of 64, one for each interface,
  -- also when the directory cannot be opened.
  pub reconcile_exclusive_usb-IsWf :
      (filter : UsbDeviceFilter) (state : ExclusiveUsbState) (w : H.World)
      → IsWf state.records
      → IsWf (reconcile_exclusive_usb H filter state w).1.records
  unfolding reconcile_exclusive_usb
  reconcile_exclusive_usb-IsWf filter state w h =
      let w1 = (prune_disconnected_usb_interfaces H state.records w).0 in
      let pruned : IsWf (prune_disconnected_usb_interfaces H state.records w).1 = record {
        short = omega (arith, length-prune state.records w, h.short);
        distinct = AreDistinct-prune state.records w h.distinct;
      } in
      elim (Either-cases (H.opendir (codes "/sys/bus/usb/devices") w1).1) [
        | inl (errno, e) ↦ rw (e, reconcile_exclusive_usb) pruned
        | inr (names, e) ↦
            rw (e, reconcile_exclusive_usb) (IsWf-reconcile_entries filter names _ _ pruned)
      ]
