-- ===== src/Dds/StatusCondition/Trigger.antt =====
-- When a status condition triggers, by the mails it was sent.
use dust_dds.Base.{
  ◌≡◌, refl, sym, ap, ◌≢◌, ◌↔◌, ◌⊎◌, inl, inr, arith, Bool, true, false, List, [], ◌∷◌, ◌++◌,
  if◌then◌else◌,
}
use mathlib.Core.Path.{subst}
use dust_dds.Transport.Types.{truth_iff}
use dust_dds.Dds.Status.{
  StatusKind, StatusMail, add_communication_state, remove_communication_state,
}
use dust_dds.Dds.StatusCondition.{
  StatusConditionActor, Status-discrete, status_eq, contains_status, retain_other, any_enabled,
  get_trigger_value, handle_all, add_state, remove_state,
}

-- No mail of the list removes the status.
unfoldable pub IsKept : StatusKind → List StatusMail → Type 0
IsKept s [] = Unit {0}
IsKept s (m ∷ ms) = (m ≢ remove_communication_state s) × IsKept s ms

-- A mail of the list adds the status, and none after it removes it.
unfoldable pub IsPending : StatusKind → List StatusMail → Type 0
unfolding IsKept
IsPending s [] = ⊥
IsPending s (m ∷ ms) = IsPending s ms ⊎ ((m ≡ add_communication_state s) × IsKept s ms)

abbrev Has : StatusKind → List StatusKind → Type 0
Has s l = contains_status s l ≡ true

status_eq_iff : (a b : StatusKind) → (status_eq a b ≡ true) ↔ (a ≡ b)
status_eq_iff a b = truth_iff (Status-discrete a b)

contains_status-append :
    (s t : StatusKind) (l : List StatusKind) → Has s (l ++ t ∷ []) ↔ (Has s l ⊎ (t ≡ s))
contains_status-append s t [] = grind (arith, status_eq_iff t s)
contains_status-append s t (x ∷ l) = grind (arith, contains_status-append s t l)

contains_status-retain_other :
    (s t : StatusKind) (l : List StatusKind) → Has s (retain_other t l) ↔ (Has s l × (t ≢ s))
contains_status-retain_other s t [] = grind arith
contains_status-retain_other s t (x ∷ l) = grind (
  arith,
  contains_status-retain_other s t l,
  status_eq_iff x t,
  status_eq_iff x s,
  status_eq_iff t s,
)

if_cases : (b c : Bool) → ((if b then true else c) ≡ true) ↔ ((b ≡ true) ⊎ (c ≡ true))
if_cases true c = ((λ _. inl refl), (λ _. refl))
if_cases false c = (inr, (λ h. elim h [ inl e ↦ absurd (cc e) | inr e ↦ e ]))

contains_status-cons :
    (s x : StatusKind) (l : List StatusKind) → Has s (x ∷ l) ↔ ((x ≡ s) ⊎ Has s l)
contains_status-cons s x l = grind (arith, status_eq_iff x s)

any_enabled_iff :
    (enabled changes : List StatusKind)
    → (any_enabled enabled changes ≡ true) ↔ ((s : StatusKind) × Has s enabled × Has s changes)
any_enabled_iff enabled [] = ((λ e. absurd (cc e)), (λ w. absurd (cc (w.2))))
any_enabled_iff enabled (x ∷ l) = (
  (λ e. elim ((if_cases (contains_status x enabled) (any_enabled enabled l)).0 e) [
    | inl h ↦ (x, h, (contains_status-cons x x l).1 (inl refl))
    | inr h ↦
        let w = (any_enabled_iff enabled l).0 h in
        (w.0, w.1, (contains_status-cons w.0 x l).1 (inr w.2))
  ]),
  (λ w.
      (if_cases (contains_status x enabled) (any_enabled enabled l)).1
        (elim ((contains_status-cons w.0 x l).0 w.2) [
          | inl e ↦ inl (rw e w.1)
          | inr h ↦ inr ((any_enabled_iff enabled l).1 (w.0, w.1, h))
        ])),
)

-- What the condition holds after the mails.
abbrev Held : StatusConditionActor → StatusKind → List StatusMail → Type 0
Held c s ms = IsPending s ms ⊎ (Has s c.status_changes × IsKept s ms)

added_iff :
    (c : StatusConditionActor) (s t : StatusKind) (ms : List StatusMail)
    → Held (add_state c t) s ms ↔ Held c s (add_communication_state t ∷ ms)
unfolding IsPending
added_iff c s t ms = (
  (λ h. elim h [
    | inl p ↦ inl (inl p)
    | inr (held, k) ↦ elim ((contains_status-append s t c.status_changes).0 held) [
      | inl before ↦ inr (before, ((λ e. absurd (cc e)), k))
      | inr e ↦ inl (inr (ap add_communication_state e, k))
    ]
  ]),
  (λ h. elim h [
    | inl (inl p) ↦ inl p
    | inl (inr (e, k)) ↦ inr ((contains_status-append s t c.status_changes).1 (inr (cc e)), k)
    | inr (before, (_, k)) ↦ inr ((contains_status-append s t c.status_changes).1 (inl before), k)
  ]),
)

removed_iff :
    (c : StatusConditionActor) (s t : StatusKind) (ms : List StatusMail)
    → Held (remove_state c t) s ms ↔ Held c s (remove_communication_state t ∷ ms)
unfolding IsPending
removed_iff c s t ms = (
  (λ h. elim h [
    | inl p ↦ inl (inl p)
    | inr (held, k) ↦
        let kept = (contains_status-retain_other s t c.status_changes).0 held in
        inr (kept.0, ((λ e. kept.1 (cc e)), k))
  ]),
  (λ h. elim h [
    | inl (inl p) ↦ inl p
    | inl (inr (e, k)) ↦ absurd (cc e)
    | inr (held, (other, k)) ↦ inr (
      (contains_status-retain_other s t c.status_changes).1
          (held, (λ e. other (ap remove_communication_state e))),
      k,
    )
  ]),
)

handled_iff :
    (c : StatusConditionActor) (s : StatusKind) (ms : List StatusMail)
    → Has s (handle_all c ms).status_changes ↔ Held c s ms
unfolding IsPending handle_all
handled_iff c s [] = ((λ h. inr (h, tt)), (λ h. elim h [ inl n ↦ absurd n | inr k ↦ k.0 ]))
handled_iff c s (add_communication_state t ∷ ms) =
    let next = handled_iff (add_state c t) s ms in
    ((λ h. (added_iff c s t ms).0 (next.0 h)), (λ h. next.1 ((added_iff c s t ms).1 h)))
handled_iff c s (remove_communication_state t ∷ ms) =
    let next = handled_iff (remove_state c t) s ms in
    ((λ h. (removed_iff c s t ms).0 (next.0 h)), (λ h. next.1 ((removed_iff c s t ms).1 h)))

enabled-handle_all :
    (c : StatusConditionActor) (ms : List StatusMail)
    → (handle_all c ms).enabled_statuses ≡ c.enabled_statuses
unfolding handle_all
enabled-handle_all c [] = refl
enabled-handle_all c (add_communication_state t ∷ ms) = enabled-handle_all (add_state c t) ms
enabled-handle_all c (remove_communication_state t ∷ ms) = enabled-handle_all (remove_state c t) ms

-- What is held is what is pending, where nothing was held before.
handle_all-IsPending :
    (c : StatusConditionActor) (s : StatusKind) (ms : List StatusMail)
    → c.status_changes ≡ []
    → Has s (handle_all c ms).status_changes ↔ IsPending s ms
handle_all-IsPending c s ms none = (
  (λ h. elim ((handled_iff c s ms).0 h) [
    | inl p ↦ p
    | inr (held, k) ↦ absurd (cc (subst (λ l. Has s l) none held))
  ]),
  (λ p. (handled_iff c s ms).1 (inl p)),
)

-- A condition without changes is sent mails. Then it triggers exactly when an enabled status was
-- added by a mail after which no mail removed it.
pub get_trigger_value-handle_all :
    (c : StatusConditionActor) (ms : List StatusMail)
    → c.status_changes ≡ []
    → (get_trigger_value (handle_all c ms) ≡ true)
      ↔ ((s : StatusKind) × (contains_status s c.enabled_statuses ≡ true) × IsPending s ms)
unfolding get_trigger_value
get_trigger_value-handle_all c ms none = (
  (λ e.
      let w =
        (any_enabled_iff (handle_all c ms).enabled_statuses (handle_all c ms).status_changes).0 e in
      (
        w.0,
        subst (λ l. Has w.0 l) (enabled-handle_all c ms) w.1,
        (handle_all-IsPending c w.0 ms none).0 w.2,
      )),
  (λ w. (any_enabled_iff (handle_all c ms).enabled_statuses (handle_all c ms).status_changes).1 (
    w.0,
    subst (λ l. Has w.0 l) (sym (enabled-handle_all c ms)) w.1,
    (handle_all-IsPending c w.0 ms none).1 w.2,
  )),
)
