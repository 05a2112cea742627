-- ===== src/Dds/Discovery/Agreement.antt =====
-- A writer and a reader find the same policies incompatible.
use dust_dds.Base.{
  ℕ, ◌≡◌, refl, Bool, true, false, not, ◌||◌, List, [], ◌∷◌, ◌++◌, contains, if◌then◌else◌,
}
use mathlib.Core.List.{Perm}
use mathlib.Core.List.Perm
use dust_dds.Transport.Types.{Guid}
use dust_dds.Dds.Qos.{
  PresentationQosPolicy, PublisherQos, SubscriberQos, DataReaderQos, DataWriterQos,
  OwnershipQosPolicyKind, Ownership-discrete, shared, exclusive,
}
use dust_dds.Dds.Qos.Orders.{
  Ordering, is_less, is_greater, reversed, is_greater-reversed, is_less-reversed, durability_cmp,
  durability_cmp-reversed, access_scope_cmp-reversed, duration_kind_cmp-reversed,
  liveliness_cmp-reversed, reliability_cmp-reversed, destination_order_cmp-reversed,
}
use dust_dds.Dds.Discovery.{
  pushed, is_different, ownership_differs, presentation_is_lower, presentation_is_higher,
  offered_representation, presentation_qos_policy_id, durability_qos_policy_id, publication_data,
  subscription_data, get_discovered_reader_incompatible_qos_policy_list,
  get_discovered_writer_incompatible_qos_policy_list,
}

-- A test of the one side by the test of the other.
converse_greater : (o p : Ordering) → p ≡ reversed o → is_greater p ≡ is_less o
converse_greater o p e = rw e (is_greater-reversed o)

converse_less : (o p : Ordering) → p ≡ reversed o → is_less p ≡ is_greater o
converse_less o p e = rw e (is_less-reversed o)

is_different_comm : (a b : Bool) → is_different a b ≡ is_different b a
is_different_comm true true = refl
is_different_comm true false = refl
is_different_comm false true = refl
is_different_comm false false = refl

ownership_differs_comm :
    (a b : OwnershipQosPolicyKind) → ownership_differs a b ≡ ownership_differs b a
unfolding Ownership-discrete
ownership_differs_comm shared shared = refl
ownership_differs_comm shared exclusive = refl
ownership_differs_comm exclusive shared = refl
ownership_differs_comm exclusive exclusive = refl

presentation_is_higher-lower :
    (requested offered : PresentationQosPolicy)
    → presentation_is_higher requested offered ≡ presentation_is_lower offered requested
presentation_is_higher-lower r o =
    rw
      (
        converse_greater _ _ (access_scope_cmp-reversed o.access_scope r.access_scope),
        is_different_comm r.coherent_access o.coherent_access,
        is_different_comm r.ordered_access o.ordered_access,
      )
      refl

pushed-nested :
    (a b : Bool) (id : ℕ) → (if not a then pushed (not b) id else []) ≡ pushed (not (a || b)) id
pushed-nested true b id = refl
pushed-nested false b id = refl

-- The first two entries stand in the other order; those after them are kept.
pushed-swap : (a b : Bool) (i j : ℕ) → Perm (pushed a i ++ pushed b j) (pushed b j ++ pushed a i)
pushed-swap true true i j = Perm.swap j i []
pushed-swap true false i j = Perm.refl (i ∷ [])
pushed-swap false true i j = Perm.refl (j ∷ [])
pushed-swap false false i j = Perm.refl []

abbrev followed_by : List ℕ → List (List ℕ) → List ℕ
followed_by l [] = l
followed_by l (t ∷ ts) = followed_by (l ++ t) ts

followed_by-Perm :
    (l k : List ℕ) (ts : List (List ℕ)) → Perm l k → Perm (followed_by l ts) (followed_by k ts)
followed_by-Perm l k [] p = p
followed_by-Perm l k (t ∷ ts) p =
    followed_by-Perm (l ++ t) (k ++ t) ts (Perm.append p (Perm.refl t))

-- A writer and a reader announce their QoS to each other, as discovery does it. Then the policies
-- for which the writer does not match the reader are those for which the reader does not match the
-- writer, each as often.
pub get_discovered_writer_incompatible_qos_policy_list-Perm :
    (writer reader : Guid) (w : DataWriterQos) (r : DataReaderQos) (publisher_qos : PublisherQos)
    (subscriber_qos : SubscriberQos)
    → Perm
        (get_discovered_writer_incompatible_qos_policy_list r
          (publication_data writer w publisher_qos)
          subscriber_qos)
        (get_discovered_reader_incompatible_qos_policy_list w
          (subscription_data reader r subscriber_qos)
          publisher_qos)
unfolding get_discovered_writer_incompatible_qos_policy_list publication_data subscription_data
    get_discovered_reader_incompatible_qos_policy_list
get_discovered_writer_incompatible_qos_policy_list-Perm writer reader w r publisher_qos
      subscriber_qos =
    rw
      (
        presentation_is_higher-lower subscriber_qos.presentation publisher_qos.presentation,
        converse_greater _ _ (durability_cmp-reversed w.durability r.durability),
        converse_less _ _ (duration_kind_cmp-reversed w.deadline r.deadline),
        converse_greater _ _ (duration_kind_cmp-reversed w.latency_budget r.latency_budget),
        converse_greater _ _ (liveliness_cmp-reversed w.liveliness r.liveliness),
        converse_greater _ _ (reliability_cmp-reversed w.reliability.kind r.reliability.kind),
        converse_greater _ _
            (destination_order_cmp-reversed w.destination_order r.destination_order),
        ownership_differs_comm r.ownership w.ownership,
        pushed-nested (contains (offered_representation w.representation) r.representation) _ _,
      )
      (followed_by-Perm
        (pushed lower presentation_qos_policy_id ++ pushed weaker durability_qos_policy_id)
        (pushed weaker durability_qos_policy_id ++ pushed lower presentation_qos_policy_id)
        (_ ∷ _ ∷ _ ∷ _ ∷ _ ∷ _ ∷ _ ∷ [])
        (pushed-swap lower weaker presentation_qos_policy_id durability_qos_policy_id))
  where
    lower : Bool
    lower = presentation_is_lower publisher_qos.presentation subscriber_qos.presentation

    weaker : Bool
    weaker = is_less (durability_cmp w.durability r.durability)
