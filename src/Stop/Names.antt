-- ===== src/Stop/Names.antt =====
-- Which paths of /proc/PID/cgroup are delegated.
use mathlib.Core.Option.{some-injective}
use dawnshell.Prelude.{
  ℕ, ◌≡◌, refl, sym, ap, ◌↔◌, ◌⊎◌, inl, inr, true, some, List, [], ◌∷◌, ◌++◌, arith, ◌==◌,
  Bool-cases, Option-cases,
}
use dawnshell.Cgroup.Paths.{cgroup_child_name}
use dawnshell.Stop.Delegated.{strip_prefix, ends_name, cgroup_path_is_delegated}

strip_prefix-some :
    (name text rest : List ℕ) → strip_prefix name text ≡ some rest → text ≡ name ++ rest
unfolding strip_prefix
strip_prefix-some [] text rest e = some-injective _ _ e
strip_prefix-some (x ∷ name) [] rest e = cc
strip_prefix-some (x ∷ name) (y ∷ text) rest e = elim (Bool-cases (x == y)) [
  | inl same ↦
      let e' = rw same at e in
      let head : x ≡ y = ground arith in
      rw (sym head) (ap (λ t. x ∷ t) (strip_prefix-some name text rest e'))
  | inr differs ↦ let e' = rw differs at e in cc
]

ends_name-cases :
    (rest : List ℕ) → ends_name rest ≡ true → (rest ≡ []) ⊎ ((tail : List ℕ) × (rest ≡ 47 ∷ tail))
ends_name-cases [] e = inl refl
ends_name-cases (c ∷ tail) e =
    let slash : c ≡ 47 = ground arith in inr (tail, ap (λ d. d ∷ tail) slash)

abbrev IsBelow : List ℕ → Type 0
IsBelow path =
    (path ≡ 47 ∷ cgroup_child_name)
    ⊎ ((tail : List ℕ) × (path ≡ 47 ∷ (cgroup_child_name ++ 47 ∷ tail)))

cgroup_path-IsBelow : (path : List ℕ) → cgroup_path_is_delegated path ≡ true → IsBelow path
unfolding cgroup_path_is_delegated
cgroup_path-IsBelow [] e = cc
cgroup_path-IsBelow (c ∷ path) e = elim (Bool-cases (c == 47)) [
  | inr other ↦ let e' = rw (other, cgroup_path_is_delegated) at e in cc
  | inl slash ↦
      let e1 = rw (slash, cgroup_path_is_delegated) at e in
      let head : c ≡ 47 = ground arith in
      elim (Option-cases (strip_prefix cgroup_child_name path)) [
        | inl missing ↦ let e2 = rw missing at e1 in cc
        | inr (rest, found) ↦
            let e2 = rw found at e1 in
            let whole = strip_prefix-some cgroup_child_name path rest found in
            elim (ends_name-cases rest e2) [
              | inl ended ↦ inl (rw (head, whole, ended) refl)
              | inr (tail, deeper) ↦ inr (tail, rw (head, whole, deeper) refl)
            ]
      ]
]

delegated_below : (path : List ℕ) → IsBelow path → cgroup_path_is_delegated path ≡ true
unfolding cgroup_path_is_delegated strip_prefix
delegated_below path (inl e) = rw e refl
delegated_below path (inr (tail, e)) = rw e refl

-- A path counts as delegated exactly if it is the child's, a slash before the name "dawnshell", or
-- lies below it, behind one more slash.
pub cgroup_path_is_delegated_iff :
    (path : List ℕ)
    → (cgroup_path_is_delegated path ≡ true) ↔ (
        (path ≡ 47 ∷ cgroup_child_name)
        ⊎ ((tail : List ℕ) × (path ≡ 47 ∷ (cgroup_child_name ++ 47 ∷ tail))))
cgroup_path_is_delegated_iff path = (cgroup_path-IsBelow path, delegated_below path)
