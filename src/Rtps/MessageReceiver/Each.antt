-- ===== src/Rtps/MessageReceiver/Each.antt =====
-- The loops of a receiver over its entities, and runs of the entities one by one.
use dust_dds.Base.{◌≡◌, refl, ap, List, [], ◌∷◌, ◌++◌, map, Outcome, ret, panic, stuck, ◌>>=◌}
use mathlib.Core.Path.{ap₂}
use dust_dds.Rtps.Messages.Submessages.{Message}
use dust_dds.Rtps.StatefulReader.Steps.{ret-injective}
use dust_dds.Rtps.MessageReceiver.{each, each_sending}

-- The lists have the same length, and `R` relates them element by element.
abbrev pub Pointwise : {A : Type 0} → (A → A → Type 0) → List A → List A → Type 0
Pointwise R [] [] = Unit
Pointwise R (x ∷ xs) (y ∷ ys) = R x y × Pointwise R xs ys
Pointwise R _ _ = ⊥

bind_ret {ℓ} :
    {A : Type ℓ} (o : Outcome A) (k : A → Outcome A) (z : A)
    → (o >>= k) ≡ ret z
    → (y : A) × (o ≡ ret y) × (k y ≡ ret z)
bind_ret (ret y) k z e = (y, refl, e)
bind_ret panic k z e = absurd (cc e)
bind_ret stuck k z e = absurd (cc e)

pub Pointwise-bind :
    {A : Type 0} (f k : A → Outcome A) (xs zs : List A)
    → Pointwise (λ a c. (f a >>= k) ≡ ret c) xs zs
    → (ys : List A) × Pointwise (λ a b. f a ≡ ret b) xs ys × Pointwise (λ b c. k b ≡ ret c) ys zs
Pointwise-bind f k [] [] h = ([], tt, tt)
Pointwise-bind f k [] (z ∷ zs) h = absurd h
Pointwise-bind f k (x ∷ xs) [] h = absurd h
Pointwise-bind f k (x ∷ xs) (z ∷ zs) h =
    let (y, one, rest) = bind_ret (f x) k z h.0 in
    let (ys, ones, rests) = Pointwise-bind f k xs zs h.1 in (y ∷ ys, (one, ones), (rest, rests))

pub map_ends :
    {A : Type 0} (f : A → A) (xs ys : List A)
    → Pointwise (λ a b. ret (f a) ≡ ret b) xs ys
    → map f xs ≡ ys
map_ends f [] [] h = refl
map_ends f [] (y ∷ ys) h = absurd h
map_ends f (x ∷ xs) [] h = absurd h
map_ends f (x ∷ xs) (y ∷ ys) h = ap₂ ◌∷◌ (ret-injective h.0) (map_ends f xs ys h.1)

pub each_ends :
    {A : Type 0} (f : A → Outcome A) (xs ys : List A)
    → Pointwise (λ a b. f a ≡ ret b) xs ys
    → each f xs ≡ ret ys
unfolding each
each_ends f [] [] h = refl
each_ends f [] (y ∷ ys) h = absurd h
each_ends f (x ∷ xs) [] h = absurd h
each_ends f (x ∷ xs) (y ∷ ys) h = rw (h.0, each_ends f xs ys h.1) refl

sent_ends {ℓ} :
    {A : Type ℓ} (o : Outcome (A × List Message)) (y : A)
    → (o >>= λ x. ret x.0) ≡ ret y
    → (sent : List Message) × (o ≡ ret (y, sent))
sent_ends (ret (x, sent)) y e = (sent, ap (λ a. ret (a, sent)) (ret-injective e))
sent_ends panic y e = absurd (cc e)
sent_ends stuck y e = absurd (cc e)

pub each_sending_ends :
    {A : Type 0} (f : A → Outcome (A × List Message)) (xs ys : List A)
    → Pointwise (λ a b. (f a >>= λ x. ret x.0) ≡ ret b) xs ys
    → (sent : List Message) × (each_sending f xs ≡ ret (ys, sent))
unfolding each_sending
each_sending_ends f [] [] h = ([], refl)
each_sending_ends f [] (y ∷ ys) h = absurd h
each_sending_ends f (x ∷ xs) [] h = absurd h
each_sending_ends f (x ∷ xs) (y ∷ ys) h =
    let (sent, one) = sent_ends (f x) y h.0 in
    let (more, rest) = each_sending_ends f xs ys h.1 in (sent ++ more, rw (one, rest) refl)

pub Pointwise-map :
    {A : Type 0} (P Q : A → A → Type 0) (xs ys : List A)
    → ((a b : A) → P a b → Q a b)
    → Pointwise P xs ys
    → Pointwise Q xs ys
Pointwise-map P Q [] [] f h = tt
Pointwise-map P Q [] (y ∷ ys) f h = absurd h
Pointwise-map P Q (x ∷ xs) [] f h = absurd h
Pointwise-map P Q (x ∷ xs) (y ∷ ys) f h = (f x y h.0, Pointwise-map P Q xs ys f h.1)

pub same_ends : {A : Type 0} (xs ys : List A) → Pointwise (λ a b. ret a ≡ ret b) xs ys → xs ≡ ys
same_ends [] [] h = refl
same_ends [] (y ∷ ys) h = absurd h
same_ends (x ∷ xs) [] h = absurd h
same_ends (x ∷ xs) (y ∷ ys) h = ap₂ ◌∷◌ (ret-injective h.0) (same_ends xs ys h.1)

pub map_id {ℓ} : {A : Type ℓ} (xs : List A) → map (λ x. x) xs ≡ xs
map_id [] = refl
map_id (x ∷ xs) = ap (◌∷◌ x) (map_id xs)

pub bind_ret_id {ℓ} : {A : Type ℓ} (o : Outcome A) → (o >>= λ a. ret a) ≡ o
bind_ret_id (ret a) = refl
bind_ret_id panic = refl
bind_ret_id stuck = refl

pub bind_assoc {ℓ} :
    {A : Type ℓ} (o : Outcome A) (f g : A → Outcome A)
    → (o >>= (λ a. f a >>= g)) ≡ ((o >>= f) >>= g)
bind_assoc (ret a) f g = refl
bind_assoc panic f g = refl
bind_assoc stuck f g = refl
