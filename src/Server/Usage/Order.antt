-- ===== src/Server/Usage/Order.antt =====
-- What the sorting of the rows of `summarize_usage` keeps.
use mathlib.Core.List.{Perm}
use mathlib.Core.List.Perm
use taymna.Common.{ℕ, ◌≤◌, ◌≡◌, Bool, true, false, List, [], ◌∷◌, arith, inl, inr, Bool-cases, All}
use taymna.Common.Equality.{nat_eq, list_eq}
use taymna.Common.Text.{Str}
use taymna.Server.Usage.{MachineUsage, comes_first, insert, sort}

abbrev pub IsDescending : List MachineUsage → Type 0
IsDescending [] = Unit {0}
IsDescending (u ∷ us) = All (λ v. v.used_seconds ≤ u.used_seconds) us × IsDescending us

module _ (locale_le : Str → Str → Bool) where
  insert-perm :
      (u : MachineUsage) (us : List MachineUsage)
      → Perm (insert (comes_first locale_le) u us) (u ∷ us)
  unfolding insert
  insert-perm u [] = Perm.refl _
  insert-perm u (v ∷ vs) = elim (Bool-cases (comes_first locale_le u v)) [
    | inl e ↦ rw (e) (Perm.refl _)
    | inr e ↦ rw (e) (Perm.trans (Perm.cons v (insert-perm u vs)) (Perm.swap u v vs))
  ]

  pub sort-perm : (us : List MachineUsage) → Perm (sort (comes_first locale_le) us) us
  unfolding sort
  sort-perm [] = Perm.refl _
  sort-perm (u ∷ us) =
      Perm.trans (insert-perm u (sort (comes_first locale_le) us)) (Perm.cons u (sort-perm us))

  All-insert :
      (P : MachineUsage → Type 0) (u : MachineUsage) (us : List MachineUsage)
      → P u
      → All P us
      → All P (insert (comes_first locale_le) u us)
  unfolding insert
  All-insert P u [] p h = (p, tt)
  All-insert P u (v ∷ vs) p (q, h) = elim (Bool-cases (comes_first locale_le u v)) [
    | inl e ↦ rw (e) (p, (q, h))
    | inr e ↦ rw (e) (q, All-insert P u vs p h)
  ]

  pub All-sort :
      (P : MachineUsage → Type 0) (us : List MachineUsage)
      → All P us
      → All P (sort (comes_first locale_le) us)
  unfolding sort
  All-sort P [] h = tt
  All-sort P (u ∷ us) (p, h) = All-insert P u (sort (comes_first locale_le) us) p (All-sort P us h)

  All-le :
      (a b : ℕ) (us : List MachineUsage)
      → a ≤ b
      → All (λ v. v.used_seconds ≤ a) us
      → All (λ v. v.used_seconds ≤ b) us
  All-le a b [] l h = tt
  All-le a b (v ∷ vs) l (k, h) = (omega arith, All-le a b vs l h)

  comes_first_le :
      (u v : MachineUsage) → comes_first locale_le u v ≡ true → v.used_seconds ≤ u.used_seconds
  comes_first_le u v e = ground arith

  comes_later_le :
      (u v : MachineUsage) → comes_first locale_le u v ≡ false → u.used_seconds ≤ v.used_seconds
  comes_later_le u v e = ground arith

  insert-IsDescending :
      (u : MachineUsage) (us : List MachineUsage)
      → IsDescending us
      → IsDescending (insert (comes_first locale_le) u us)
  unfolding insert
  insert-IsDescending u [] h = (tt, tt)
  insert-IsDescending u (v ∷ vs) (most, h) = elim (Bool-cases (comes_first locale_le u v)) [
    | inl e ↦
        let le = comes_first_le u v e in
        rw (e) ((le, All-le v.used_seconds u.used_seconds vs le most), (most, h))
    | inr e ↦ rw (e) (
      All-insert (λ w. w.used_seconds ≤ v.used_seconds) u vs (comes_later_le u v e) most,
      insert-IsDescending u vs h,
    )
  ]

  pub sort-IsDescending : (us : List MachineUsage) → IsDescending (sort (comes_first locale_le) us)
  unfolding sort
  sort-IsDescending [] = tt
  sort-IsDescending (u ∷ us) =
      insert-IsDescending u (sort (comes_first locale_le) us) (sort-IsDescending us)
