-- ===== src/State/RoundTrip.antt =====
-- `read_state` reads what `write_state` wrote.
use mathlib.Core.Path.{fun_ext}
use dawnshell.Prelude.{
  ℕ, ◌<◌, ◌≡◌, refl, sym, ap, ◌∙◌, some, List, [], ◌∷◌, ◌++◌, arith, lt→ltb, codes, str_eq, length,
  take, length-append, take_all, ℤ,
}
use dawnshell.Launch.Namespaces.{Namespace, pid_ns, mnt_ns, uts_ns, ipc_ns, cgroup_ns, net_ns}
use dawnshell.State.Adopted.{IsWritable, adopt, set_field-text}
use dawnshell.State.Fields.{Field, SavedState, field_name, field_text, fields, find_field}
use dawnshell.State.File.{
  state_line, state_lines, state_text, split_lines, split_equal, set_named, read_line, read_lines,
  initialize_state, read_contents,
}
use dawnshell.State.Lines.{lacks, split_equal-append, split_lines-state_line}
use dawnshell.State.Names.{
  IsFound, field-IsFound, field_text-IsName, length-state_line, length-state_lines,
}

-- Reading one line that was written sets its field.
read_line-field :
    (f : Field) (s t : SavedState)
    → IsWritable s
    → read_line (field_name f ++ b'=' ∷ field_text f s) t ≡ adopt f s t
unfolding read_line set_named IsFound
read_line-field f s t h =
    let (no_equal, no_end, short, found) = field-IsFound f in
    rw (split_equal-append (field_name f) (field_text f s) no_equal, found, read_line)
      (set_field-text f s t h)

adopt_all : List Field → SavedState → SavedState → SavedState
adopt_all [] s t = t
adopt_all (f ∷ fs) s t = adopt_all fs s (adopt f s t)

read_lines-state_lines :
    (fs : List Field) (s t : SavedState)
    → IsWritable s
    → read_lines (split_lines [] (state_lines fs s)) t ≡ adopt_all fs s t
unfolding state_lines adopt_all read_lines IsFound
read_lines-state_lines [] s t h = unfold split_lines in refl
read_lines-state_lines (f ∷ fs) s t h =
    let (no_equal, no_end, short, found) = field-IsFound f in
    let split =
      split_lines-state_line (field_name f) (field_text f s) (state_lines fs s) no_end
        (field_text-IsName f s h).0 in
    ap (λ ls. read_lines ls t) split
    ∙ read_lines-state_lines fs s (read_line (field_name f ++ b'=' ∷ field_text f s) t) h
    ∙ ap (adopt_all fs s) (read_line-field f s t h)

adopted_namespace :
    (s t : SavedState) (k : Namespace)
    → (adopt_all fields s t).launcher.init_ns_ino k ≡ s.launcher.init_ns_ino k
unfolding adopt_all adopt field_name str_eq
adopted_namespace s t pid_ns = refl
adopted_namespace s t mnt_ns = refl
adopted_namespace s t uts_ns = refl
adopted_namespace s t ipc_ns = refl
adopted_namespace s t cgroup_ns = refl
adopted_namespace s t net_ns = refl

adopt_all-fields : (s t : SavedState) → adopt_all fields s t ≡ s
unfolding adopt_all adopt
adopt_all-fields s t =
    ap (λ g. record s { launcher = record (s.launcher) { init_ns_ino = g } })
      (fun_ext (adopted_namespace s t))

read_contents-head :
    (now : ℤ) (contents : List ℕ) (x : ℕ) (xs : List ℕ)
    → take 4095 contents ≡ x ∷ xs
    → read_contents now contents
      ≡ some (read_lines (split_lines [] (x ∷ xs)) (initialize_state (codes "unknown") now))
unfolding read_contents
read_contents-head now contents x xs e = rw (e, read_contents) refl

-- The line of the format names no field.
read_line-format : (t : SavedState) → read_line (codes "format=7") t ≡ t
unfolding read_line split_equal find_field set_named field_name str_eq
read_line-format t = refl

abbrev written : SavedState → List ℕ
written s = state_line (codes "format") (codes "7") ++ state_lines fields s

written_head : (s : SavedState) → (rest : List ℕ) × (written s ≡ b'f' ∷ rest)
unfolding state_line
written_head s = (_, refl)

read_contents-written :
    (s : SavedState) (now : ℤ)
    → IsWritable s
    → length (written s) < 1024
    → read_contents now (written s) ≡ some s
unfolding read_lines
read_contents-written s now h short =
    let t = initialize_state (codes "unknown") now in
    let all : take 4095 (written s) ≡ written s =
      take_all 4095 (written s) (omega (arith, short)) in
    let split : split_lines [] (written s)
        ≡ codes "format=7" ∷ split_lines [] (state_lines fields s) =
      split_lines-state_line (codes "format") (codes "7") (state_lines fields s)
        (unfold lacks in refl) (unfold lacks in refl) in
    let lines = split_lines [] (state_lines fields s) in
    let (rest, head) = written_head s in
    read_contents-head now (written s) b'f' rest (all ∙ head)
    ∙ ap (λ c. some (read_lines (split_lines [] c) t)) (sym head)
    ∙ ap (λ ls. some (read_lines ls t)) split
    ∙ ap (λ u. some (read_lines lines u)) (read_line-format t)
    ∙ ap some (read_lines-state_lines fields s t h ∙ adopt_all-fields s t)

-- What `write_state` writes of a state that its fields can hold fits its buffer, and `read_state` reads
-- the state back, with the time at which it was written.
pub read_contents-state_text :
    (s : SavedState) (epoch now : ℤ)
    → IsWritable (record s { updated_epoch = epoch })
    → (text : List ℕ) × (state_text epoch s ≡ some text)
      × (read_contents now text ≡ some (record s { updated_epoch = epoch }))
unfolding state_text
read_contents-state_text s epoch now h =
    let s' = record s { updated_epoch = epoch } in
    let lines = length-state_lines fields s' h in
    let size = length-append (state_line (codes "format") (codes "7")) (state_lines fields s') in
    let first_size = length-state_line (codes "format") (codes "7") in
    let short : length (written s') < 1024 = omega (arith, lines, size, first_size) in
    (
      written s',
      rw (lt→ltb (length (written s')) 1024 short) refl,
      read_contents-written s' now h short,
    )
