-- ===== src/Dds/DataReader/Reading/Filling.antt =====
-- The ranks of a collection, which the second loop fills in.
use dust_dds.Base.{
  ℕ, ◌-◌, ◌≡◌, refl, sym, ap, ◌∙◌, true, ◌||◌, List, [], ◌∷◌, any, retain, map, All, ret,
  Bool-cases, inl, inr,
}
use dust_dds.Base.Returns.{Returns, Returns-bind, Returns-map}
use dust_dds.Dds.Handles.{
  InstanceHandle, HashMap, handle_eq, contains_key, contains_key-insert, index-contains_key,
}
use dust_dds.Dds.DataReader.{InstanceState, IndexedSample, mark_viewed}
use dust_dds.Dds.DataReader.Collection.{is_of, last, fill_ranks, fill_instance, fill_instances}
use dust_dds.Dds.DataReader.Reading.{indices_of}
use dust_dds.Dds.DataReader.Reading.Collecting.{content_of}

-- Filling in the ranks changes neither which samples are there nor which instances are known.
pub record Filled (samples : List IndexedSample) (instances : HashMap InstanceState)
    (x : List IndexedSample × HashMap InstanceState) : Type 0 where
  pub indices : indices_of x.0 ≡ indices_of samples
  pub contents : map content_of x.0 ≡ map content_of samples
  pub known : (k : InstanceHandle) → contains_key k instances ≡ true → contains_key k x.1 ≡ true

indices_of-fill_ranks :
    (h : InstanceHandle) (recent total : ℕ) (ss : List IndexedSample)
    → indices_of (fill_ranks h recent total ss) ≡ indices_of ss
unfolding fill_ranks
indices_of-fill_ranks h recent total [] = refl
indices_of-fill_ranks h recent total (s ∷ ss) = elim (Bool-cases (is_of h s)) [
  | inl e ↦ rw e (ap (◌∷◌ s.index) (indices_of-fill_ranks h recent (total - 1) ss))
  | inr e ↦ rw e (ap (◌∷◌ s.index) (indices_of-fill_ranks h recent total ss))
]

contents-fill_ranks :
    (h : InstanceHandle) (recent total : ℕ) (ss : List IndexedSample)
    → map content_of (fill_ranks h recent total ss) ≡ map content_of ss
unfolding fill_ranks
contents-fill_ranks h recent total [] = refl
contents-fill_ranks h recent total (s ∷ ss) = elim (Bool-cases (is_of h s)) [
  | inl e ↦ rw e (ap (◌∷◌ (content_of s)) (contents-fill_ranks h recent (total - 1) ss))
  | inr e ↦ rw e (ap (◌∷◌ (content_of s)) (contents-fill_ranks h recent total ss))
]

any_of_contents :
    (h : InstanceHandle) (ss : List IndexedSample)
    → any (is_of h) ss ≡ any (λ x. handle_eq x.instance_handle h) (map content_of ss)
any_of_contents h [] = refl
any_of_contents h (s ∷ ss) = ap (λ b. is_of h s || b) (any_of_contents h ss)

last-cons :
    (s : IndexedSample) (ss : List IndexedSample) → (t : IndexedSample) × (last (s ∷ ss) ≡ ret t)
unfolding last
last-cons s [] = (s, refl)
last-cons s (t ∷ ss) = last-cons t ss

last-retain :
    (h : InstanceHandle) (ss : List IndexedSample)
    → any (is_of h) ss ≡ true
    → (t : IndexedSample) × (last (retain (is_of h) ss) ≡ ret t)
last-retain h [] e = absurd (cc e)
last-retain h (s ∷ ss) e = elim (Bool-cases (is_of h s)) [
  | inl this ↦ rw this (last-cons s (retain (is_of h) ss))
  | inr other ↦ rw other (last-retain h ss (rw other at e))
]

-- The handle is that of a sample in the collection and of a known instance.
abbrev pub Present : List IndexedSample → HashMap InstanceState → InstanceHandle → Type 0
Present ss instances h = (any (is_of h) ss ≡ true) × (contains_key h instances ≡ true)

fill_instance-Filled :
    (h : InstanceHandle) (ss : List IndexedSample) (instances : HashMap InstanceState)
    → Present ss instances h
    → Returns (Filled ss instances) (fill_instance h ss instances)
unfolding fill_instance
fill_instance-Filled h ss instances (there, known) =
    let (recent, e) = last-retain h ss there in
    let (state, f) = index-contains_key h instances known in
    rw (e, f)
      (record {
        indices = indices_of-fill_ranks h _ _ ss;
        contents = contents-fill_ranks h _ _ ss;
        known = λ k t. contains_key-insert h k (mark_viewed state) instances t;
      })

Present-Filled :
    (ss : List IndexedSample) (instances : HashMap InstanceState)
    (x : List IndexedSample × HashMap InstanceState)
    → Filled ss instances x
    → (hs : List InstanceHandle) → All (Present ss instances) hs
    → All (Present x.0 x.1) hs
Present-Filled ss instances x f [] p = tt
Present-Filled ss instances x f (h ∷ hs) p = (
  (
    any_of_contents h x.0
        ∙ ap (λ cs. any (λ y. handle_eq y.instance_handle h) cs) f.contents
        ∙ sym (any_of_contents h ss)
        ∙ p.0.0,
    f.known h p.0.1,
  ),
  Present-Filled ss instances x f hs p.1,
)

pub fill_instances-Filled :
    (hs : List InstanceHandle) (ss : List IndexedSample) (instances : HashMap InstanceState)
    → All (Present ss instances) hs
    → Returns (Filled ss instances) (fill_instances hs ss instances)
unfolding fill_instances
fill_instances-Filled [] ss instances p = record {
  indices = refl;
  contents = refl;
  known = λ k t. t;
}
fill_instances-Filled (h ∷ hs) ss instances p =
    Returns-bind (Filled ss instances) (Filled ss instances) _ _
      (fill_instance-Filled h ss instances p.0)
      (λ x f.
        Returns-map (Filled x.0 x.1) (Filled ss instances) _
          (λ y g. record {
            indices = g.indices ∙ f.indices;
            contents = g.contents ∙ f.contents;
            known = λ k t. g.known k (f.known k t);
          })
          (fill_instances-Filled hs x.0 x.1 (Present-Filled ss instances x f hs p.1)))
