-- ===== src/Dds/Errors.antt =====
-- dds/src/dds/infrastructure/error.rs. The text of an error is left out.

pub data DdsError : Type 0 where
  error unsupported bad_parameter precondition_not_met out_of_resources not_enabled : DdsError
  immutable_policy inconsistent_policy already_deleted timeout no_data : DdsError
  illegal_operation : DdsError

pub data DdsResult {ℓ} (A : Type ℓ) : Type ℓ where
  ok : A → DdsResult A
  err : DdsError → DdsResult A
