-- ===== src/Dds/Discovery/Accepted.antt =====
-- When a writer reports no incompatible policy for a discovered reader, by the policies' values.
use dust_dds.Base.{
  ℕ, ◌≤◌, ◌<◌, ◌≡◌, refl, arith, ◌↔◌, ◌⊎◌, inl, inr, Bool, true, false, not, ◌&&◌, ◌||◌, List, [],
  ◌∷◌, ◌++◌, All, ◌==◌, contains,
}
use dust_dds.Transport.Types.{truth}
use dust_dds.Dds.Time.{duration_kind_le}
use dust_dds.Dds.Qos.{
  PresentationQosPolicy, PublisherQos, DataWriterQos, OwnershipQosPolicyKind, Ownership-discrete,
}
use dust_dds.Dds.Qos.Orders.{
  is_less, is_greater, durability_cmp, access_scope_cmp, duration_kind_cmp, liveliness_cmp,
  reliability_cmp, destination_order_cmp,
}
use dust_dds.Dds.Qos.Ranks.{
  durability_rank, access_scope_rank, liveliness_rank, reliability_rank, destination_order_rank,
  is_less-durability_cmp, is_less-access_scope_cmp, is_less-reliability_cmp,
  is_less-destination_order_cmp, is_less-duration_kind_cmp, is_greater-duration_kind_cmp,
  is_less-liveliness_cmp,
}
use dust_dds.Dds.DataWriter.{SubscriptionBuiltinTopicData}
use dust_dds.Dds.Discovery.{
  durability_qos_policy_id, presentation_qos_policy_id, deadline_qos_policy_id,
  latencybudget_qos_policy_id, ownership_qos_policy_id, liveliness_qos_policy_id,
  reliability_qos_policy_id, destinationorder_qos_policy_id, data_representation_qos_policy_id,
  pushed, is_different, is_empty, ownership_differs, presentation_is_lower, offered_representation,
  get_discovered_reader_incompatible_qos_policy_list,
}

-- What the code asks of the offered values, policy by policy; for the latency budget, the lease of the
-- liveliness and the flags of the presentation this is not what their documentation asks.
pub record IsAccepted (w : DataWriterQos) (r : SubscriptionBuiltinTopicData) (p : PublisherQos)
    : Type 0 where
  pub durability : durability_rank r.durability ≤ durability_rank w.durability
  pub access_scope :
      access_scope_rank r.presentation.access_scope ≤ access_scope_rank p.presentation.access_scope
  pub coherent_access : p.presentation.coherent_access ≡ r.presentation.coherent_access
  pub ordered_access : p.presentation.ordered_access ≡ r.presentation.ordered_access
  pub deadline : duration_kind_le w.deadline r.deadline ≡ true
  pub latency_budget : duration_kind_le r.latency_budget w.latency_budget ≡ true
  pub liveliness :
      (liveliness_rank r.liveliness.kind < liveliness_rank w.liveliness.kind)
      ⊎ ((liveliness_rank w.liveliness.kind ≡ liveliness_rank r.liveliness.kind)
          × (duration_kind_le r.liveliness.lease_duration w.liveliness.lease_duration ≡ true))
  pub reliability : reliability_rank r.reliability.kind ≤ reliability_rank w.reliability.kind
  pub destination_order :
      destination_order_rank r.destination_order ≤ destination_order_rank w.destination_order
  pub ownership : w.ownership ≡ r.ownership
  pub representation :
      (contains (offered_representation w.representation) r.representation ≡ true)
      ⊎ ((offered_representation w.representation ≡ 0) × (r.representation ≡ []))

-- Nothing is pushed exactly where every test fails.
abbrev pushed_after : List ℕ → List (Bool × ℕ) → List ℕ
pushed_after l [] = l
pushed_after l ((b, id) ∷ ts) = pushed_after (l ++ pushed b id) ts

abbrev Fails : Bool × ℕ → Type 0
Fails t = t.0 ≡ false

append_nil : (l : List ℕ) (b : Bool) (id : ℕ) → (l ++ pushed b id ≡ []) ↔ ((l ≡ []) × (b ≡ false))
append_nil [] b id = ground arith
append_nil (x ∷ l) b id = ground arith

pushed_after-nil :
    (l : List ℕ) (ts : List (Bool × ℕ)) → (pushed_after l ts ≡ []) ↔ ((l ≡ []) × All Fails ts)
pushed_after-nil l [] = ((λ e. (e, tt)), (λ h. h.0))
pushed_after-nil l ((b, id) ∷ ts) =
    let rest = pushed_after-nil (l ++ pushed b id) ts in
    let here = append_nil l b id in
    (
      (λ e. let f = rest.0 e in ((here.0 f.0).0, ((here.0 f.0).1, f.1))),
      (λ h. rest.1 (here.1 (h.0, h.1.0), h.1.1)),
    )

is_different_lem : (a b : Bool) → (is_different a b ≡ false) ↔ (a ≡ b)
is_different_lem a b = ground arith

all_false : (a b c : Bool) → (a || b || c ≡ false) ↔ ((a ≡ false) × (b ≡ false) × (c ≡ false))
all_false a b c = ground arith

truth-not : {A : Type 0} (d : Dec A) → (not (truth d) ≡ false) ↔ A
truth-not (yes a) = ((λ _. a), (λ _. refl))
truth-not (no n) = ((λ e. absurd (cc e)), (λ a. absurd (n a)))

presentation_lem :
    (offered requested : PresentationQosPolicy)
    → (presentation_is_lower offered requested ≡ false) ↔ (
        (access_scope_rank requested.access_scope ≤ access_scope_rank offered.access_scope)
        × (offered.coherent_access ≡ requested.coherent_access)
        × (offered.ordered_access ≡ requested.ordered_access))
presentation_lem o r =
    let parts =
      all_false (is_less (access_scope_cmp o.access_scope r.access_scope))
        (is_different o.coherent_access r.coherent_access)
        (is_different o.ordered_access r.ordered_access) in
    let scope = is_less-access_scope_cmp o.access_scope r.access_scope in
    let coherent = is_different_lem o.coherent_access r.coherent_access in
    let ordered = is_different_lem o.ordered_access r.ordered_access in
    (
      (λ e. let f = parts.0 e in (scope.0 f.0, coherent.0 f.1, ordered.0 f.2)),
      (λ h. parts.1 (scope.1 h.0, coherent.1 h.1, ordered.1 h.2)),
    )

ownership_lem : (a b : OwnershipQosPolicyKind) → (ownership_differs a b ≡ false) ↔ (a ≡ b)
ownership_lem a b = truth-not (Ownership-discrete a b)

representation_lem :
    (offered : ℕ) (requested : List ℕ)
    → (not (contains offered requested || (offered == 0 && is_empty requested)) ≡ false)
      ↔ ((contains offered requested ≡ true) ⊎ ((offered ≡ 0) × (requested ≡ [])))
representation_lem offered [] = ground arith
representation_lem offered (x ∷ l) = ground arith

liveliness_lem :
    (w : DataWriterQos) (r : SubscriptionBuiltinTopicData)
    → (is_less (liveliness_cmp w.liveliness r.liveliness) ≡ false) ↔ (
        (liveliness_rank r.liveliness.kind < liveliness_rank w.liveliness.kind)
        ⊎ ((liveliness_rank w.liveliness.kind ≡ liveliness_rank r.liveliness.kind)
            × (duration_kind_le r.liveliness.lease_duration w.liveliness.lease_duration ≡ true)))
liveliness_lem w r =
    let lease = is_less-duration_kind_cmp w.liveliness.lease_duration r.liveliness.lease_duration in
    let both = is_less-liveliness_cmp w.liveliness r.liveliness in
    (
      (λ e. elim (both.0 e) [ inl h ↦ inl h | inr (k, l) ↦ inr (k, lease.0 l) ]),
      (λ h. both.1 (elim h [ inl g ↦ inl g | inr (k, l) ↦ inr (k, lease.1 l) ])),
    )

-- The tests of the code with their policies, and what their failure says.
abbrev tests : DataWriterQos → SubscriptionBuiltinTopicData → PublisherQos → List (Bool × ℕ)
tests w r p =
    (is_less (durability_cmp w.durability r.durability), durability_qos_policy_id)
    ∷ (presentation_is_lower p.presentation r.presentation, presentation_qos_policy_id)
    ∷ (is_greater (duration_kind_cmp w.deadline r.deadline), deadline_qos_policy_id)
    ∷ (is_less (duration_kind_cmp w.latency_budget r.latency_budget), latencybudget_qos_policy_id)
    ∷ (is_less (liveliness_cmp w.liveliness r.liveliness), liveliness_qos_policy_id)
    ∷ (is_less (reliability_cmp w.reliability.kind r.reliability.kind), reliability_qos_policy_id)
    ∷ (
      is_less (destination_order_cmp w.destination_order r.destination_order),
      destinationorder_qos_policy_id,
    )
    ∷ (ownership_differs w.ownership r.ownership, ownership_qos_policy_id)
    ∷ (
      not (
          contains (offered_representation w.representation) r.representation
          || (offered_representation w.representation == 0 && is_empty r.representation)),
      data_representation_qos_policy_id,
    )
    ∷ []

tests→IsAccepted :
    (w : DataWriterQos) (r : SubscriptionBuiltinTopicData) (p : PublisherQos)
    → All Fails (tests w r p)
    → IsAccepted w r p
tests→IsAccepted w r p (d, (pr, (dl, (lb, (li, (re, (de, (ow, (rp, _))))))))) =
    let seen = (presentation_lem p.presentation r.presentation).0 pr in
    record {
      durability = (is_less-durability_cmp w.durability r.durability).0 d;
      access_scope = seen.0;
      coherent_access = seen.1;
      ordered_access = seen.2;
      deadline = (is_greater-duration_kind_cmp w.deadline r.deadline).0 dl;
      latency_budget = (is_less-duration_kind_cmp w.latency_budget r.latency_budget).0 lb;
      liveliness = (liveliness_lem w r).0 li;
      reliability = (is_less-reliability_cmp w.reliability.kind r.reliability.kind).0 re;
      destination_order =
          (is_less-destination_order_cmp w.destination_order r.destination_order).0 de;
      ownership = (ownership_lem w.ownership r.ownership).0 ow;
      representation =
          (representation_lem (offered_representation w.representation) r.representation).0 rp;
    }

IsAccepted→tests :
    (w : DataWriterQos) (r : SubscriptionBuiltinTopicData) (p : PublisherQos)
    → IsAccepted w r p
    → All Fails (tests w r p)
IsAccepted→tests w r p c = (
  (is_less-durability_cmp w.durability r.durability).1 c.durability,
  (
    (presentation_lem p.presentation r.presentation).1
        (c.access_scope, c.coherent_access, c.ordered_access),
    (
      (is_greater-duration_kind_cmp w.deadline r.deadline).1 c.deadline,
      (
        (is_less-duration_kind_cmp w.latency_budget r.latency_budget).1 c.latency_budget,
        (
          (liveliness_lem w r).1 c.liveliness,
          (
            (is_less-reliability_cmp w.reliability.kind r.reliability.kind).1 c.reliability,
            (
              (is_less-destination_order_cmp w.destination_order r.destination_order).1
                  c.destination_order,
              (
                (ownership_lem w.ownership r.ownership).1 c.ownership,
                (
                  (representation_lem (offered_representation w.representation) r.representation).1
                      c.representation,
                  tt,
                ),
              ),
            ),
          ),
        ),
      ),
    ),
  ),
)

-- A writer reports no policy for a discovered reader exactly when it accepts the offered values: the
-- kinds of durability, access scope, reliability and destination order are at least the requested
-- ones; the deadline is at most the requested one; the ownership is equal; the representation that
-- the writer offers is in the reader's list, where an empty list stands for XCDR. So far this is the
-- documented compatibility. Three policies are accepted otherwise than qos_policy.rs documents: the
-- latency budget when it is at least the requested one (documented: at most); the liveliness when its
-- kind is higher, whatever the lease, or the same with a lease at least the requested one
-- (documented: a lease at most); coherent_access and ordered_access only when they are equal
-- (documented: also whenever the requested one is false).
pub get_discovered_reader_incompatible_qos_policy_list-IsAccepted :
    (w : DataWriterQos) (r : SubscriptionBuiltinTopicData) (p : PublisherQos)
    → (get_discovered_reader_incompatible_qos_policy_list w r p ≡ []) ↔ IsAccepted w r p
unfolding get_discovered_reader_incompatible_qos_policy_list
get_discovered_reader_incompatible_qos_policy_list-IsAccepted w r p =
    let none = pushed_after-nil [] (tests w r p) in
    ((λ e. tests→IsAccepted w r p (none.0 e).1), (λ c. none.1 (refl, IsAccepted→tests w r p c)))
