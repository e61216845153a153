-- ===== src/Shell/Command/Evolved.antt =====
-- How a round of A1/shell379.c may change the list of the processes.
use operating_systems_fa.Common.{
  Bool-cases, List, [], ap, arith, eqb_ℤ, inl, inr, length, refl, suc, ℕ, ℤ, ◌++◌, ◌<◌, ◌∷◌, ◌≡◌,
  ◌≢◌, ◌≤◌, ◌⊎◌,
}
use mathlib.Core.Path.{subst}
use operating_systems_fa.Common.State.{Sound, sound}
use operating_systems_fa.Shell.Heap.{Ptr, null, Info, Heap, set_status}
use operating_systems_fa.Shell.Pcb.{ProcessTable, max_pt_entries}
use operating_systems_fa.Shell.Pcb.Cells.{Cells, IsTable}
use operating_systems_fa.Shell.Pcb.Add.{running}
use operating_systems_fa.Shell.Pcb.Find.{first_with}
use operating_systems_fa.Shell.Command.Status.{with_status, set_status-IsTable}

-- 'R' or 'S'.
abbrev pub IsStatus : ℕ → Type 0
IsStatus s = (s ≡ b'R') ⊎ (s ≡ b'S')

-- Nothing has changed, one process has another status, or a running one is new, in front.
pub data Evolved (xs : Cells) (ws : Cells) : Type 0 where
  kept : ws ≡ xs → Evolved xs ws
  restated :
      (ys : Cells) (a : Ptr) (v : Info) (s : ℕ) (zs : Cells)
      → xs ≡ ys ++ (a, v) ∷ zs
      → ws ≡ ys ++ (a, with_status v s) ∷ zs
      → IsStatus s
      → Evolved xs ws
  added :
      (fresh : Ptr) (pid : ℤ) (name : List ℕ)
      → ws ≡ (fresh, running pid name) ∷ xs
      → length xs < max_pt_entries
      → Evolved xs ws

abbrev pub AllStatuses : Cells → Type 0
AllStatuses [] = Unit
AllStatuses ((a, v) ∷ xs) = IsStatus v.status × AllStatuses xs

-- At most 32 processes, each running or suspended.
pub record IsSmall (xs : Cells) : Type 0 where
  pub few : length xs ≤ max_pt_entries
  pub statuses : AllStatuses xs

length-restated :
    (ys : Cells) (a : Ptr) (v w : Info) (zs : Cells)
    → length (ys ++ (a, w) ∷ zs) ≡ length (ys ++ (a, v) ∷ zs)
length-restated [] a v w zs = refl
length-restated (y ∷ ys) a v w zs = ap suc (length-restated ys a v w zs)

AllStatuses-restated :
    (ys : Cells) (a : Ptr) (v : Info) (s : ℕ) (zs : Cells)
    → IsStatus s
    → AllStatuses (ys ++ (a, v) ∷ zs)
    → AllStatuses (ys ++ (a, with_status v s) ∷ zs)
AllStatuses-restated [] a v s zs is (old, all) = (is, all)
AllStatuses-restated (y ∷ ys) a v s zs is (here, all) =
    (here, AllStatuses-restated ys a v s zs is all)

pub Evolved-IsSmall : {xs ws : Cells} → Evolved xs ws → IsSmall xs → IsSmall ws
Evolved-IsSmall (kept e) small = rw e small
Evolved-IsSmall (restated ys a v s zs e f is) small = rw f (record {
  few = omega (arith, ap (λ l. length l) e, length-restated ys a v (with_status v s) zs, small.few);
  statuses = AllStatuses-restated ys a v s zs is (subst AllStatuses e small.statuses);
})
Evolved-IsSmall (added fresh pid name e room) small =
    rw e (record { few = omega arith; statuses = (inl refl, small.statuses) })

-- The process that a pid finds is in the list.
pub first_with-split :
    (pid : ℤ) (xs : Cells)
    → (first_with pid xs ≡ null)
      ⊎ ((ys : Cells) × (v : Info) × (zs : Cells) × (xs ≡ ys ++ (first_with pid xs, v) ∷ zs))
unfolding first_with
first_with-split pid [] = inl refl
first_with-split pid ((a, v) ∷ xs) = elim (Bool-cases (eqb_ℤ v.pid pid)) [
  | inl hit ↦ inr ([], v, xs, rw hit refl)
  | inr miss ↦ elim (first_with-split pid xs) [
    | inl none_left ↦ inl (rw miss none_left)
    | inr (ys, w, zs, e) ↦ inr ((a, v) ∷ ys, w, zs, rw miss (ap (λ l. (a, v) ∷ l) e))
  ]
]

-- The memory holds a table of what the list has become.
abbrev pub Kept : {A : Type 0} → ProcessTable → Cells → A → Heap → Type 0
Kept t xs a g = (ws : Cells) × Evolved xs ws × IsTable g t ws

module _ {h : Heap} {t : ProcessTable} {xs : Cells} (is : IsTable h t xs) where
  pub unchanged-Kept : (ws : Cells) × Evolved xs ws × IsTable h t ws
  unchanged-Kept = (xs, kept refl, is)

  -- A new status for the process that a pid finds.
  pub set_status-Kept :
      (pid : ℤ) (s : ℕ)
      → first_with pid xs ≢ null
      → IsStatus s
      → Sound (Kept t xs) (set_status (first_with pid xs) s h)
  set_status-Kept pid s ne status = elim (first_with-split pid xs) [
    | inl none_found ↦ absurd (ne none_found)
    | inr (ys, v, zs, e) ↦
        let (g, done, table) =
          set_status-IsTable ys (first_with pid xs) v s zs (subst (IsTable h t) e is) in
        rw done (sound (_, restated ys (first_with pid xs) v s zs e refl status, table))
  ]
