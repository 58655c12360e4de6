-- ===== src/Apperr.antt =====
-- internal/apperr/apperr.go: the published error codes and the process exit status of each.
use m.Base.{ℕ, Str, Option, none, some, if◌then◌else◌}
use m.Base.Int.{ℤ, pos, is_zero}

pub data Code : Type 0 where
  ok usage cancelled internal internal_panic io config network integrity lockfile : Code
  lock_unsupported lock_ambiguous lock_unrepresentable unimplemented unsupported : Code
  manifest not_found resolve install transaction store policy pnp_unsupported exec timeout : Code
  runtime_node_not_found runtime_node_version runtime_node_unsupported runtime_entrypoint : Code
  runtime_invocation runtime_asset_manifest runtime_asset_digest runtime_asset_extract : Code
  runtime_asset_cache runtime_node_start child_exit : Code
  transform_syntax transform_unsupported transform_config_parse transform_config_extends : Code
  transform_config_option transform_protocol_version transform_auth transform_frame_size : Code
  transform_timeout transform_cancelled transform_unavailable transform_cache_corrupt : Code
  transform_engine : Code

-- The map `registry`, read by `ExitForCode`; every code of the type is a key of it.
unfoldable pub exit_for_code : Code → ℕ
exit_for_code Code.ok = 0
exit_for_code Code.usage = 2
exit_for_code Code.cancelled = 130
exit_for_code Code.transform_cancelled = 130
exit_for_code _ = 1

-- `Error`: the code, the operation and the subject. The message is not modelled.
pub record Error : Type 0 where
  pub code : Code
  pub op : Str
  pub subject : Str

-- The pair `(value, error)` of a fallible call, of which one half is meant.
pub data Result {ℓ} (A : Type ℓ) : Type ℓ where
  ok : A → Result A
  err : Error → Result A

infixl 5 ◌>>=◌
abbrev pub ◌>>=◌ {ℓ κ} : {A : Type ℓ} {B : Type κ} → Result A → (A → Result B) → Result B
ok a >>= f = f a
err e >>= f = err e

-- What an `error` of the program holds, as `ExitCode` tells them apart: an `ExitStatus` with its
-- code, an `Error` with its `ExitHint`, or any other error.
pub data Failure : Type 0 where
  exit_status : ℤ → Failure
  hinted : Error → ℤ → Failure
  other : Failure

-- `ExitCode`; `none` is the nil error.
unfoldable pub exit_code : Option Failure → ℤ
exit_code none = pos 0
exit_code (some (exit_status code)) = code
exit_code (some (hinted e hint)) = if is_zero hint then pos (exit_for_code e.code) else hint
exit_code (some other) = pos 1
