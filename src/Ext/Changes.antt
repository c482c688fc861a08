-- ===== src/Ext/Changes.antt =====
-- `apply_changes`: all the changes are made, or none is.
use scoutfs.Ext.{
  Change, ExtOps, Outcome, apply, apply_changes, done, failed, ins, on_error, rem, rollback, undo,
}
use scoutfs.Ext.Laws.{ExtLaws, Free, IsExtent, Owner, Stored, covers}
use scoutfs.Prelude.{
  Errno, List, Result-cases, [], enoent, err, fun_ext, if◌then◌else◌, inl, inr, none, ok, refl,
  some, subst, sym, ℕ, ◌∷◌, ◌≡◌, ◌⊎◌,
}

-- What a change does to the owners of blocks, and when it may be made.
abbrev pub change_owner : Change → Owner → Owner
change_owner (ins e) o b = if covers e b then some e else o b
change_owner (rem e) o b = if covers e b then none else o b

abbrev pub change_owners : List Change → Owner → Owner
change_owners [] o = o
change_owners (c ∷ cs) o = change_owners cs (change_owner c o)

abbrev pub Allowed : Change → Owner → Type 0
Allowed (ins e) o = IsExtent e × Free o e
Allowed (rem e) o = IsExtent e × Stored o e

abbrev pub AllAllowed : List Change → Owner → Type 0
AllAllowed [] o = Unit {0}
AllAllowed (c ∷ cs) o = Allowed c o × AllAllowed cs (change_owner c o)

module _ {ops : ExtOps} {IsFault : Errno → Type 0} (laws : ExtLaws ops IsFault) where
  open laws use {IsStore, owner}

  -- How a call may end: with the owners that the changes give, or by a fault with the storage as it was.
  abbrev pub Ends : Owner → ops.Store → Outcome ops.Store → Type 0
  Ends o s r =
      ((s' : ops.Store) × (r ≡ done s') × IsStore s' × ((b : ℕ) → owner s' b ≡ o b))
      ⊎ ((e : Errno) × (r ≡ failed e s) × IsFault e)

  Applied : Change → ops.Store → Owner → Type 0
  Applied c s o =
      ((s' : ops.Store) × (apply ops c s ≡ ok s')
        × IsStore s'
        × (owner s' ≡ change_owner c o)
        × (undo ops c s' ≡ ok s))
      ⊎ ((e : Errno) × (apply ops c s ≡ err e) × IsFault e)

  apply-Applied :
      (c : Change) (s : ops.Store) → IsStore s → Allowed c (owner s) → Applied c s (owner s)
  unfolding Applied
  apply-Applied (ins e) s v a = elim (Result-cases (ops.insert s e)) [
    | inl (s', q) ↦
        let (v', o', u) = laws.insert_adds s s' e v a.0 a.1 q in inl (s', q, v', fun_ext o', u)
    | inr (x, q) ↦ inr (x, q, laws.insert_fault s e x v a.0 a.1 q)
  ]
  apply-Applied (rem e) s v a = elim (Result-cases (ops.remove s e)) [
    | inl (s', q) ↦
        let (v', o', u) = laws.remove_takes s s' e v a.0 a.1 q in inl (s', q, v', fun_ext o', u)
    | inr (x, q) ↦ inr (x, q, laws.remove_fault s e x v a.0 a.1 q)
  ]

  -- The changes made so far can be taken back to the storage `s₀`.
  apply_changes-Ends :
      (cs made : List Change) (s s₀ : ops.Store)
      → IsStore s
      → AllAllowed cs (owner s)
      → ((e : Errno) → rollback ops made e s ≡ failed e s₀)
      → Ends (change_owners cs (owner s)) s₀ (apply_changes ops cs made s)
  unfolding apply_changes Applied rollback
  apply_changes-Ends [] made s s₀ v a back = inl (s, refl, v, λ b. refl)
  apply_changes-Ends (c ∷ cs) made s s₀ v a back = elim (apply-Applied c s v a.0) [
    | inl (s', q, v', o', u) ↦
        rw (q, apply_changes)
          (subst (λ o. Ends (change_owners cs o) s₀ (apply_changes ops cs (c ∷ made) s')) o'
            (apply_changes-Ends cs (c ∷ made) s' s₀ v' (subst (AllAllowed cs) (sym o') a.1)
              (λ e. rw (u, rollback) (back e))))
    | inr (e, q, f) ↦ rw (q, apply_changes) (inr (e, back e, f))
  ]

  pub apply-Ends :
      (cs : List Change) (s : ops.Store)
      → IsStore s
      → AllAllowed cs (owner s)
      → Ends (change_owners cs (owner s)) s (apply_changes ops cs [] s)
  unfolding rollback
  apply-Ends cs s v a = apply_changes-Ends cs [] s s v a (λ e. refl)

  -- A search that fails with no extent goes on, any other error is a fault.
  pub on_error_cases {κ} :
      (P : Outcome ops.Store → Type κ) (s : ops.Store) (start : ℕ) (x : Errno)
      (missing : Outcome ops.Store)
      → ops.next s start 1 ≡ err x
      → (x ≡ enoent → P missing)
      → (IsFault x → P (failed x s))
      → P (on_error ops x missing s)
  unfolding on_error
  on_error_cases P s start enoent missing e none_left fault = none_left refl
  on_error_cases P s start x missing e none_left fault = elim (laws.next_fault s start 1 x e) [
    | inl q ↦ absurd cc
    | inr f ↦ fault f
  ]
