-- ===== src/Dds/DataReader/Adding/Distinct.antt =====
-- The number of the instances that a list of samples has.
use dust_dds.Base.{
  ℕ, suc, ◌≤◌, ◌≡◌, refl, sym, ap, ◌∙◌, arith, Bool, true, false, ◌||◌, List, [], ◌∷◌, any, length,
  if◌then◌else◌, Bool-cases, inl, inr,
}
use mathlib.Core.Path.{subst}
use dust_dds.Dds.Handles.{InstanceHandle, handle_eq, handle_eq_iff, handle_eq_self}
use dust_dds.Dds.DataReader.{ReaderSample}
use dust_dds.Dds.DataReader.Adding.{count, is_of_instance, handles_of}

abbrev pub member : InstanceHandle → List InstanceHandle → Bool
member h hs = any (λ k. handle_eq k h) hs

abbrev pub IsDistinct : List InstanceHandle → Type 0
IsDistinct [] = Unit
IsDistinct (h ∷ hs) = (member h hs ≡ false) × IsDistinct hs

-- Each of the instances has a sample in the list.
abbrev pub HasSamples : List InstanceHandle → List ReaderSample → Type 0
HasSamples hs ccs = (h : InstanceHandle) → member h hs ≡ true → any (is_of_instance h) ccs ≡ true

-- The list without the first occurrence of a handle.
abbrev drop : InstanceHandle → List InstanceHandle → List InstanceHandle
drop h [] = []
drop h (k ∷ ks) = if handle_eq k h then ks else k ∷ drop h ks

length-drop :
    (h : InstanceHandle) (ks : List InstanceHandle)
    → member h ks ≡ true
    → length ks ≡ suc (length (drop h ks))
length-drop h [] e = absurd (cc e)
length-drop h (k ∷ ks) e = elim (Bool-cases (handle_eq k h)) [
  | inl same ↦ rw same refl
  | inr other ↦ rw other (ap (λ (n : ℕ). suc n) (length-drop h ks (rw other at e)))
]

member-drop :
    (h l : InstanceHandle) (ks : List InstanceHandle)
    → handle_eq h l ≡ false
    → member l ks ≡ true
    → member l (drop h ks) ≡ true
member-drop h l [] apart e = absurd (cc e)
member-drop h l (k ∷ ks) apart e = elim (Bool-cases (handle_eq k h)) [
  | inl same ↦
      let equal : k ≡ h = (handle_eq_iff k h).0 same in
      let not_here : handle_eq k l ≡ false = subst (λ x. handle_eq x l ≡ false) (sym equal) apart in
      rw same (rw not_here at e)
  | inr other ↦ rw other (ground (arith, member-drop h l ks apart, e))
]

-- Distinct handles are no more than a list that has them all.
pub length-IsDistinct :
    (hs ks : List InstanceHandle)
    → IsDistinct hs
    → ((h : InstanceHandle) → member h hs ≡ true → member h ks ≡ true)
    → length hs ≤ length ks
length-IsDistinct [] ks d sub = omega arith
length-IsDistinct (h ∷ hs) ks d sub = omega (
  arith,
  length-drop h ks (sub h (rw (handle_eq_self h) refl)),
  length-IsDistinct hs (drop h ks) d.1 (λ l e. member-drop h l ks (apart l e) (sub l (later l e))),
)
  where
    apart : (l : InstanceHandle) → member l hs ≡ true → handle_eq h l ≡ false
    apart l e = elim (Bool-cases (handle_eq h l)) [
      | inl same ↦
          absurd (cc (subst (λ x. member x hs ≡ true) (sym ((handle_eq_iff h l).0 same)) e, d.0))
      | inr other ↦ other
    ]

    later : (l : InstanceHandle) → member l hs ≡ true → member l (h ∷ hs) ≡ true
    later l e = elim (Bool-cases (handle_eq h l)) [
      | inl same ↦ rw same refl
      | inr other ↦ rw other e
    ]

pub member-handles_of :
    (h : InstanceHandle) (ccs : List ReaderSample)
    → member h (handles_of ccs) ≡ any (is_of_instance h) ccs
unfolding handles_of
member-handles_of h [] = refl
member-handles_of h (c ∷ ccs) = elim (Bool-cases (any (is_of_instance c.instance_handle) ccs)) [
  | inl again ↦ elim (Bool-cases (handle_eq c.instance_handle h)) [
    | inl same ↦
        let equal : c.instance_handle ≡ h = (handle_eq_iff c.instance_handle h).0 same in
        rw (again, same)
          (member-handles_of h ccs ∙ subst (λ k. any (is_of_instance k) ccs ≡ true) equal again)
    | inr other ↦ rw (again, other) (member-handles_of h ccs)
  ]
  | inr first ↦ rw first (ap (◌||◌ (handle_eq c.instance_handle h)) (member-handles_of h ccs))
]

pub handles_of-IsDistinct : (ccs : List ReaderSample) → IsDistinct (handles_of ccs)
unfolding handles_of
handles_of-IsDistinct [] = tt
handles_of-IsDistinct (c ∷ ccs) = elim (Bool-cases (any (is_of_instance c.instance_handle) ccs)) [
  | inl again ↦ rw again (handles_of-IsDistinct ccs)
  | inr first ↦
      rw first (member-handles_of c.instance_handle ccs ∙ first, handles_of-IsDistinct ccs)
]

pub any→count :
    (p : ReaderSample → Bool) (ccs : List ReaderSample) → any p ccs ≡ true → 1 ≤ count p ccs
any→count p [] e = absurd (cc e)
any→count p (c ∷ ccs) e = ground (arith, any→count p ccs)

pub count→any :
    (p : ReaderSample → Bool) (ccs : List ReaderSample) → 1 ≤ count p ccs → any p ccs ≡ true
count→any p [] e = absurd (omega arith)
count→any p (c ∷ ccs) e = ground (arith, count→any p ccs)
