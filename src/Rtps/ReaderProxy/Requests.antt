-- ===== src/Rtps/ReaderProxy/Requests.antt =====
-- The changes that a reader has requested again.
use dust_dds.Base.{
  Bool-cases, inl, inr, false, ℕ, suc, ap, ◌∙◌, ◌≤◌, ◌<◌, ◌≡◌, refl, arith, true, not, ◌&&◌, ◌||◌,
  Option, none, some, List, [], ◌∷◌, ◌++◌, ◌==◌, if◌then◌else◌, retain, contains, minimum, length,
  contains-append,
}
use dust_dds.Base.Minimum.{IsMinimum, minimum-IsMinimum, contains-retain, length-retain-lt}
use dust_dds.Rtps.ReaderProxy.{
  RtpsReaderProxy, next_requested_change, request_all, requested_changes_set,
}

contains-push :
    (requested : List ℕ) (x sn : ℕ)
    → contains sn (if not (contains x requested) then requested ++ x ∷ [] else requested)
      ≡ (contains sn requested || x == sn)
contains-push requested x sn = ground (arith, contains-append sn requested (x ∷ []), same_test)
  where
    same_test : x ≡ sn → contains x requested ≡ contains sn requested
    same_test e = ap (λ (y : ℕ). contains y requested) e

contains-request_all :
    (requested sns : List ℕ) (sn : ℕ)
    → contains sn (request_all requested sns) ≡ (contains sn requested || contains sn sns)
unfolding request_all
contains-request_all requested [] sn = ground arith
contains-request_all requested (x ∷ sns) sn =
    contains-request_all (if not (contains x requested) then requested ++ x ∷ [] else requested) sns
      sn
    ∙ rw (contains-push requested x sn) (ground arith)

-- A number is requested after a request exactly when it was before or is among the new ones.
pub contains-requested_changes_set :
    (p : RtpsReaderProxy) (sns : List ℕ) (sn : ℕ)
    → contains sn (requested_changes_set p sns).requested_changes
      ≡ (contains sn p.requested_changes || contains sn sns)
unfolding requested_changes_set
contains-requested_changes_set p sns sn = contains-request_all p.requested_changes sns sn

-- No number stands twice in the list.
abbrev pub IsOnce : List ℕ → Type 0
IsOnce [] = Unit {0}
IsOnce (x ∷ xs) = (contains x xs ≡ false) × IsOnce xs

IsOnce-append : (xs : List ℕ) (x : ℕ) → contains x xs ≡ false → IsOnce xs → IsOnce (xs ++ x ∷ [])
IsOnce-append [] x new once = (refl, tt)
IsOnce-append (y ∷ ys) x new once = (
  contains-append y ys (x ∷ []) ∙ ground (arith, once.0),
  IsOnce-append ys x (ground arith) once.1,
)

IsOnce-request_all :
    (requested sns : List ℕ) → IsOnce requested → IsOnce (request_all requested sns)
unfolding request_all
IsOnce-request_all requested [] once = once
IsOnce-request_all requested (x ∷ sns) once = elim (Bool-cases (contains x requested)) [
  | inl there ↦ rw there (IsOnce-request_all requested sns once)
  | inr new ↦
      rw new (IsOnce-request_all (requested ++ x ∷ []) sns (IsOnce-append requested x new once))
]

-- Where each requested number stands once in the list, it does after a request; a number is then
-- requested exactly when it was before or is among the new ones, and nothing else has changed.
pub requested_changes_set-IsOnce :
    (p : RtpsReaderProxy) (sns : List ℕ)
    → IsOnce p.requested_changes
    → IsOnce (requested_changes_set p sns).requested_changes
      × ((sn : ℕ)
          → contains sn (requested_changes_set p sns).requested_changes
            ≡ (contains sn p.requested_changes || contains sn sns))
      × (requested_changes_set p sns
          ≡ record p { requested_changes = (requested_changes_set p sns).requested_changes })
unfolding requested_changes_set
requested_changes_set-IsOnce p sns once =
    (IsOnce-request_all p.requested_changes sns once, contains-requested_changes_set p sns, refl)

-- The two results of `next_requested_change`.
abbrev pub Next : RtpsReaderProxy → Option ℕ × RtpsReaderProxy → Type 0
Next p (none, q) = (p.requested_changes ≡ []) × (q ≡ p)
Next p (some sn, q) =
    (contains sn p.requested_changes ≡ true)
    × ((x : ℕ) → contains x p.requested_changes ≡ true → sn ≤ x)
    × ((x : ℕ) → contains x q.requested_changes ≡ (contains x p.requested_changes && not (x == sn)))
    × (length q.requested_changes < length p.requested_changes)
    × (q ≡ record p { requested_changes = q.requested_changes })

next_lem :
    (p : RtpsReaderProxy) (o : Option ℕ)
    → minimum p.requested_changes ≡ o
    → IsMinimum p.requested_changes o
    → Next p (next_requested_change p)
unfolding next_requested_change
next_lem p none e m = rw (e, next_requested_change) (m, refl)
next_lem p (some sn) e (m, least) =
    rw (e, next_requested_change)
      (m, least, λ x. contains-retain (λ y. not (y == sn)) x p.requested_changes, shorter, refl)
  where
    all_length : (xs : List ℕ) → length (retain (λ y. true) xs) ≡ length xs
    all_length [] = refl
    all_length (x ∷ xs) = ap suc (all_length xs)

    shorter : length (retain (λ y. not (y == sn)) p.requested_changes) < length p.requested_changes
    shorter = omega (
      arith,
      all_length p.requested_changes,
      length-retain-lt (λ y. not (y == sn)) (λ y. true) sn p.requested_changes (λ y h. refl) m
          (ground arith) refl,
    )

-- With nothing requested `next_requested_change` gives nothing and changes nothing. Otherwise it
-- gives the smallest requested number and takes exactly that number off the requests.
pub next_requested_change-Next : (p : RtpsReaderProxy) → Next p (next_requested_change p)
next_requested_change-Next p =
    next_lem p (minimum p.requested_changes) refl (minimum-IsMinimum p.requested_changes)
