-- ===== src/Manifest/Backoff.antt =====
-- fusio-manifest/src/backoff.rs. The iterator that `build_backoff` makes is the `backon` crate's;
-- here it is the finite list of delays that the policy allows, a parameter of every retry loop.
use fusio.Manifest.Types.{
  Error, FsError, unimplemented, precondition_failed, corrupt, other, io, fs_precondition_failed,
}

pub data RetryClass : Type 0 where
  durable_conflict retry_transient fatal : RetryClass

unfoldable pub classify_error : Error → RetryClass
classify_error precondition_failed = durable_conflict
classify_error unimplemented = fatal
classify_error corrupt = fatal
classify_error (io e) = retry_transient
classify_error other = retry_transient

-- head.rs, segment.rs and gc.rs: map_fs_error
unfoldable pub map_fs_error : FsError → Error
map_fs_error fs_precondition_failed = precondition_failed
map_fs_error e = io e

-- A `match` on the class of an error.
abbrev pub by_class {ℓ} : {A : Type ℓ} → RetryClass → A → A → A → A
by_class retry_transient transient conflict dead = transient
by_class durable_conflict transient conflict dead = conflict
by_class fatal transient conflict dead = dead

-- A property of each branch is one of the match.
pub by_class_cases {ℓ κ} :
    {A : Type ℓ} (P : A → Type κ) (k : RetryClass) (transient conflict dead : A)
    → P transient
    → P conflict
    → P dead
    → P (by_class k transient conflict dead)
by_class_cases P retry_transient transient conflict dead t c d = t
by_class_cases P durable_conflict transient conflict dead t c d = c
by_class_cases P fatal transient conflict dead t c d = d
