-- ===== src/Transport/Types.antt =====
-- dds/src/transport/types.rs. Octets and the unsigned integers are numbers, an i32 is its bit
-- pattern, and a fixed array is a list. A SequenceNumber, an i64, is a number: the protocol's
-- sequence numbers are positive, and the model leaves the negative values out.
use native.Mathlib.Decide.{ℕ_discrete}
use dust_dds.Base.{ℕ, ◌+◌, ◌/◌, ◌%◌, ◌^◌, ◌≡◌, refl, ◌↔◌, Bool, true, false, List, [], ◌∷◌}

abbrev pub GuidPrefix : Type 0
GuidPrefix = List ℕ

abbrev pub SequenceNumber : Type 0
SequenceNumber = ℕ

pub record EntityId : Type 0 where
  pub entity_key : List ℕ
  pub entity_kind : ℕ

pub record Guid : Type 0 where
  pub prefix : GuidPrefix
  pub entity_id : EntityId

pub record Locator : Type 0 where
  pub kind : ℕ
  pub port : ℕ
  pub address : List ℕ

pub record ProtocolVersion : Type 0 where
  pub bytes : List ℕ

pub data ChangeKind : Type 0 where
  alive alive_filtered not_alive_disposed not_alive_unregistered : ChangeKind
  not_alive_disposed_unregistered : ChangeKind

pub data ReliabilityKind : Type 0 where
  best_effort reliable : ReliabilityKind

pub data DurabilityKind : Type 0 where
  volatile transient_local transient persistent : DurabilityKind

-- `sec` is the bit pattern of an i32.
pub record Time : Type 0 where
  pub sec : ℕ
  pub nanosec : ℕ

abbrev pub user_defined_unknown : ℕ
user_defined_unknown = 0

abbrev pub entityid_unknown : EntityId
entityid_unknown = record { entity_key = 0 ∷ 0 ∷ 0 ∷ []; entity_kind = user_defined_unknown }

abbrev pub guidprefix_unknown : GuidPrefix
guidprefix_unknown = 0 ∷ 0 ∷ 0 ∷ 0 ∷ 0 ∷ 0 ∷ 0 ∷ 0 ∷ 0 ∷ 0 ∷ 0 ∷ 0 ∷ []

-- `Time::new` carries whole seconds over.
unfoldable pub new_time : ℕ → ℕ → Time
new_time sec nanosec = record {
  sec = (sec + nanosec / 1_000_000_000) % 2 ^ 32;
  nanosec = nanosec % 1_000_000_000;
}

unfoldable pub EntityId-discrete : Discrete EntityId
unfolding ℕ_discrete
EntityId-discrete = hlevel ℕ_discrete

unfoldable pub Guid-discrete : Discrete Guid
unfolding ℕ_discrete
Guid-discrete = hlevel ℕ_discrete

unfoldable pub Locator-discrete : Discrete Locator
unfolding ℕ_discrete
Locator-discrete = hlevel ℕ_discrete

-- The derived `==`.
abbrev pub truth {ℓ} : {A : Type ℓ} → Dec A → Bool
truth (yes _) = true
truth (no _) = false

pub truth_iff {ℓ} : {A : Type ℓ} (d : Dec A) → (truth d ≡ true) ↔ A
truth_iff (yes a) = ((λ _. a), (λ _. refl))
truth_iff (no n) = ((λ e. absurd (cc e)), (λ a. absurd (n a)))

unfoldable pub entity_id_eq : EntityId → EntityId → Bool
unfolding EntityId-discrete
entity_id_eq a b = truth (EntityId-discrete a b)

unfoldable pub guid_eq : Guid → Guid → Bool
unfolding Guid-discrete
guid_eq a b = truth (Guid-discrete a b)

unfoldable pub locator_eq : Locator → Locator → Bool
unfolding Locator-discrete
locator_eq a b = truth (Locator-discrete a b)

pub guid_eq_iff : (a b : Guid) → (guid_eq a b ≡ true) ↔ (a ≡ b)
unfolding guid_eq
guid_eq_iff a b = truth_iff (Guid-discrete a b)

pub entity_id_eq_iff : (a b : EntityId) → (entity_id_eq a b ≡ true) ↔ (a ≡ b)
unfolding entity_id_eq
entity_id_eq_iff a b = truth_iff (EntityId-discrete a b)
