-- ===== src/Shell/Args/Names.antt =====
-- `is_shell_cmd` and `str2int` of A1/shell379.c.
use operating_systems_fa.Common.{
  ==→eq, Bool-cases, List, [], ap, ap₂, arith, get_elem?, inl, inr, length, pos, refl, some, suc,
  sym, true, ℕ, ◌+◌, ◌<◌, ◌∙◌, ◌∷◌, ◌≡◌,
}
use operating_systems_fa.Shell.Command.{Bytes}
use operating_systems_fa.Shell.Args.{
  eqb_bytes, shell_cmd_names, is_one_of, is_shell_cmd, lookup, str2int,
}

eqb_bytes→eq : (a b : Bytes) → eqb_bytes a b ≡ true → a ≡ b
eqb_bytes→eq [] [] e = refl
eqb_bytes→eq [] (d ∷ ds) e = absurd (ground arith)
eqb_bytes→eq (c ∷ cs) [] e = absurd (ground arith)
eqb_bytes→eq (c ∷ cs) (d ∷ ds) e =
    ap₂ (λ x xs. x ∷ xs) (==→eq c d (ground arith)) (eqb_bytes→eq cs ds (ground arith))

eqb_bytes_comm : (a b : Bytes) → eqb_bytes a b ≡ eqb_bytes b a
eqb_bytes_comm [] [] = refl
eqb_bytes_comm [] (d ∷ ds) = refl
eqb_bytes_comm (c ∷ cs) [] = refl
eqb_bytes_comm (c ∷ cs) (d ∷ ds) = ground (arith, eqb_bytes_comm cs ds)

-- Names with their indices from `k` on.
abbrev numbered : ℕ → List Bytes → List (ℕ × Bytes)
numbered k [] = []
numbered k (name ∷ names) = (k, name) ∷ numbered (suc k) names

lookup-numbered :
    (k : ℕ) (names : List Bytes) (arg : Bytes)
    → is_one_of names arg ≡ true
    → (i : ℕ) × (lookup (numbered k names) arg ≡ pos (k + i))
      × (i < length names)
      × (get_elem? names i ≡ some arg)
unfolding lookup is_one_of
lookup-numbered k [] arg found = absurd (ground arith)
lookup-numbered k (name ∷ names) arg found = elim (Bool-cases (eqb_bytes name arg)) [
  | inl e ↦ (
    0,
    rw (sym (eqb_bytes_comm name arg) ∙ e) (ap pos (omega arith)),
    omega arith,
    ap some (eqb_bytes→eq name arg e),
  )
  | inr e ↦
      let (i, at, lt, it) = lookup-numbered (suc k) names arg (ground arith) in
      (suc i, rw (eqb_bytes_comm arg name ∙ e) (at ∙ ap pos (omega arith)), omega arith, it)
]

-- A name that `is_shell_cmd` accepts has an index in the array of the callbacks, and there
-- the array of the names has this name.
pub str2int-is_shell_cmd :
    (arg : Bytes)
    → is_shell_cmd arg ≡ true
    → (i : ℕ) × (str2int arg ≡ pos i) × (i < 7) × (get_elem? shell_cmd_names i ≡ some arg)
unfolding is_shell_cmd str2int
str2int-is_shell_cmd arg known =
    let (i, at, lt, it) = lookup-numbered 0 shell_cmd_names arg known in
    (i, at ∙ ap pos (omega arith), lt, it)
