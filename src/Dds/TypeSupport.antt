-- ===== src/Dds/TypeSupport.antt =====
-- What the entities use of the type of their data, a DynamicType of dds/src/xtypes: the handle of an
-- instance from the octets of the data or of the key
-- (dds/src/implementation/xtypes_glue/key_and_instance_handle.rs), and for each member whether its
-- descriptor says that it is a key.
use dust_dds.Base.{ℕ, List, Bool}
use dust_dds.Dds.Errors.{DdsResult}
use dust_dds.Dds.Handles.{InstanceHandle}

pub record TypeSupport : Type 0 where
  pub handle_from_serialized_foo : List ℕ → DdsResult InstanceHandle
  pub handle_from_serialized_key : List ℕ → DdsResult InstanceHandle
  pub members_is_key : List (DdsResult Bool)
