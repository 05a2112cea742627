-- ===== src/Dds/Handles.antt =====
-- dds/src/dds/infrastructure/instance.rs: a handle is 16 octets, compared like an array. A HashMap
-- with handles as keys is an association list; a new key goes to its end.
use dust_dds.Base.{
  ℕ, ◌≡◌, refl, ap, ◌↔◌, arith, Bool, true, false, ◌&&◌, ◌||◌, Option, none, some, List, [], ◌∷◌,
  ltb, ◌==◌, if◌then◌else◌, Outcome, ret, panic, All, Bool-cases, Option-cases, inl, inr,
}

abbrev pub InstanceHandle : Type 0
InstanceHandle = List ℕ

-- HANDLE_NIL, the default.
abbrev pub handle_nil : InstanceHandle
handle_nil = 0 ∷ 0 ∷ 0 ∷ 0 ∷ 0 ∷ 0 ∷ 0 ∷ 0 ∷ 0 ∷ 0 ∷ 0 ∷ 0 ∷ 0 ∷ 0 ∷ 0 ∷ 0 ∷ []

unfoldable pub handle_eq : InstanceHandle → InstanceHandle → Bool
handle_eq [] [] = true
handle_eq [] (b ∷ ys) = false
handle_eq (a ∷ xs) [] = false
handle_eq (a ∷ xs) (b ∷ ys) = a == b && handle_eq xs ys

-- The derived order of arrays is lexicographic.
unfoldable pub handle_lt : InstanceHandle → InstanceHandle → Bool
handle_lt [] [] = false
handle_lt [] (b ∷ ys) = true
handle_lt (a ∷ xs) [] = false
handle_lt (a ∷ xs) (b ∷ ys) =
    let rest = handle_lt xs ys in if ltb a b then true else if ltb b a then false else rest

-- A HashMap and its operations; `index` is `map[&key]`.
abbrev pub HashMap {ℓ} : Type ℓ → Type ℓ
HashMap A = List (InstanceHandle × A)

module _ {ℓ} {A : Type ℓ} where
  unfoldable pub get : InstanceHandle → HashMap A → Option A
  unfolding handle_eq
  get h [] = none
  get h ((k, a) ∷ m) = if handle_eq k h then some a else get h m

  unfoldable pub contains_key : InstanceHandle → HashMap A → Bool
  unfolding get
  contains_key h m = elim (get h m) [ none ↦ false | some a ↦ true ]

  unfoldable pub index : HashMap A → InstanceHandle → Outcome A
  unfolding get
  index m h = elim (get h m) [ none ↦ panic | some a ↦ ret a ]

  unfoldable pub insert : InstanceHandle → A → HashMap A → HashMap A
  unfolding handle_eq
  insert h a [] = (h, a) ∷ []
  insert h a ((k, b) ∷ m) = if handle_eq k h then (k, a) ∷ m else (k, b) ∷ insert h a m

  unfoldable pub remove : InstanceHandle → HashMap A → HashMap A
  unfolding handle_eq
  remove h [] = []
  remove h ((k, b) ∷ m) = let rest = remove h m in if handle_eq k h then rest else (k, b) ∷ rest

  unfoldable pub keys : HashMap A → List InstanceHandle
  keys [] = []
  keys ((k, a) ∷ m) = k ∷ keys m

  -- `entry(h).or_insert_with(default)`, then `f` on the entry.
  unfoldable pub update_or : A → (A → A) → InstanceHandle → HashMap A → HashMap A
  unfolding insert get
  update_or default f h m = insert h (f (elim (get h m) [ none ↦ default | some a ↦ a ])) m

handle_eq→eq : (h k : InstanceHandle) → handle_eq h k ≡ true → h ≡ k
unfolding handle_eq
handle_eq→eq [] [] e = refl
handle_eq→eq [] (b ∷ ys) e = cc
handle_eq→eq (a ∷ xs) [] e = cc
handle_eq→eq (a ∷ xs) (b ∷ ys) e = ground (arith, handle_eq→eq xs ys)

pub handle_eq_self : (h : InstanceHandle) → handle_eq h h ≡ true
unfolding handle_eq
handle_eq_self [] = refl
handle_eq_self (a ∷ xs) = ground (arith, handle_eq_self xs)

pub handle_eq_iff : (h k : InstanceHandle) → (handle_eq h k ≡ true) ↔ (h ≡ k)
handle_eq_iff h k = (handle_eq→eq h k, λ e. rw e (handle_eq_self k))

module _ {ℓ} {A : Type ℓ} where
  pub get-insert_self : (h : InstanceHandle) (a : A) (m : HashMap A) → get h (insert h a m) ≡ some a
  unfolding get insert
  get-insert_self h a [] = rw (handle_eq_self h) refl
  get-insert_self h a ((k, b) ∷ m) = elim (Bool-cases (handle_eq k h)) [
    | inl e ↦ rw (e, e) refl
    | inr e ↦ rw (e, e) (get-insert_self h a m)
  ]

  -- A key that was there stays.
  pub contains_key-insert :
      (h k : InstanceHandle) (a : A) (m : HashMap A)
      → contains_key k m ≡ true
      → contains_key k (insert h a m) ≡ true
  unfolding contains_key get insert
  contains_key-insert h k a [] e = absurd (cc e)
  contains_key-insert h k a ((j, b) ∷ m) e = ground (arith, contains_key-insert h k a m)

  pub index-get :
      (h : InstanceHandle) (a : A) (m : HashMap A) → get h m ≡ some a → index m h ≡ ret a
  unfolding index
  index-get h a m e = rw (e, index) refl

  pub contains_key-insert_inv :
      (h k : InstanceHandle) (a : A) (m : HashMap A)
      → contains_key k (insert h a m) ≡ (contains_key k m || handle_eq h k)
  unfolding contains_key get insert
  contains_key-insert_inv h k a [] = ground arith
  contains_key-insert_inv h k a ((j, b) ∷ m) =
      ground (arith, contains_key-insert_inv h k a m, same_key)
    where
      same_key : handle_eq j h ≡ true → handle_eq j k ≡ handle_eq h k
      same_key e = ap (λ x. handle_eq x k) (handle_eq→eq j h e)

  pub index-update_or :
      (d : A) (f : A → A) (h : InstanceHandle) (m : HashMap A)
      → index (update_or d f h m) h ≡ ret (f (elim (get h m) [ none ↦ d | some a ↦ a ]))
  unfolding update_or
  index-update_or d f h m = index-get h _ _ (get-insert_self h _ m)

  pub contains_key-update_or :
      (d : A) (f : A → A) (h k : InstanceHandle) (m : HashMap A)
      → contains_key k (update_or d f h m) ≡ (contains_key k m || handle_eq h k)
  unfolding update_or
  contains_key-update_or d f h k m = contains_key-insert_inv h k _ m

  pub index-contains_key :
      (h : InstanceHandle) (m : HashMap A) → contains_key h m ≡ true → (a : A) × (index m h ≡ ret a)
  unfolding contains_key index
  index-contains_key h m e = elim (Option-cases (get h m)) [
    | inl gone ↦ absurd (cc (e, gone))
    | inr (a, there) ↦ (a, rw (there, index) refl)
  ]

  contains_key-All :
      (m m' : HashMap A)
      → ((k : InstanceHandle) → contains_key k m ≡ true → contains_key k m' ≡ true)
      → All (λ k. contains_key k m' ≡ true) (keys m)
  unfolding keys contains_key get
  contains_key-All [] m' h = tt
  contains_key-All ((k, a) ∷ m) m' h = (
    h k (rw (handle_eq_self k, contains_key) refl),
    contains_key-All m m' (λ j e. h j (ground arith)),
  )

  -- Each of the keys is a key.
  pub keys-contains_key : (m : HashMap A) → All (λ k. contains_key k m ≡ true) (keys m)
  keys-contains_key m = contains_key-All m m (λ k e. e)

  pub get-remove_self : (h : InstanceHandle) (m : HashMap A) → get h (remove h m) ≡ none
  unfolding get remove
  get-remove_self h [] = refl
  get-remove_self h ((k, b) ∷ m) = elim (Bool-cases (handle_eq k h)) [
    | inl e ↦ rw e (get-remove_self h m)
    | inr e ↦ rw e (rw e (get-remove_self h m))
  ]

  pub index-none : (h : InstanceHandle) (m : HashMap A) → get h m ≡ none → index m h ≡ panic
  unfolding index
  index-none h m e = rw (e, index) refl
