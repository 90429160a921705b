-- ===== src/Error.antt =====
-- src/error.rs: the error type of the crate, its comparison and its messages; `Result`.
pub mod Laws
use Prim.Native.String.{◌++◌ as concat}
use text.Mathlib.Text.{◌==◌ as str_eq}
use lsm_storage_engine.Common.{String, Bool, true, false, ◌≡◌, refl, ◌⊎◌, inl, inr}

-- The kinds of `io::Error` that the crate and the calls it makes return.
pub data IoKind : Type 0 where
  other not_found unexpected_eof : IoKind

pub record IoError : Type 0 where
  pub kind : IoKind
  pub message : String

pub data Error : Type 0 where
  io : IoError → Error
  empty_key : Error
  corrupted_record : Error
  invalid_checksum : Error
  invalid_manifest : Error
  key_too_large : Error
  value_too_large : Error
  compaction : String → Error

pub data Result {ℓ} (A : Type ℓ) : Type ℓ where
  ok : A → Result A
  err : Error → Result A

-- The `?` operator, and the same for a call whose value is not used.
infixl 5 ◌>>=◌ ◌>>◌
abbrev pub ◌>>=◌ {ℓ₁ ℓ₂} : {V : Type ℓ₁} {W : Type ℓ₂} → Result V → (V → Result W) → Result W
err failure >>= next = err failure
ok v >>= next = next v

abbrev pub ◌>>◌ {ℓ₁} : {W : Type ℓ₁} → Result (Unit {0}) → Result W → Result W
first >> second = first >>= λ done. second

pub Result-cases {ℓ} :
    {A : Type ℓ} (r : Result A) → ((a : A) × (r ≡ ok a)) ⊎ ((e : Error) × (r ≡ err e))
Result-cases (ok a) = inl (a, refl)
Result-cases (err e) = inr (e, refl)

pub bind_same {ℓ κ} :
    {A : Type ℓ} {B : Type κ} (r : Result A) (f g : A → Result B)
    → ((a : A) → f a ≡ g a)
    → (r >>= f) ≡ (r >>= g)
bind_same (ok a) f g h = h a
bind_same (err e) f g h = refl

-- `if test { return Err(e) }`
abbrev pub reject_if : Bool → Error → Result (Unit {0})
reject_if true e = err e
reject_if false e = ok tt

-- `impl From<io::Error> for Error`
unfoldable pub from_io : IoError → Error
from_io source = io source

-- `io::Error::other(message)`, as an error of the crate.
unfoldable pub other_error : String → Error
unfolding from_io
other_error message = from_io (record { kind = IoKind.other; message = message })

kind_eq : IoKind → IoKind → Bool
kind_eq other other = true
kind_eq not_found not_found = true
kind_eq unexpected_eof unexpected_eof = true
kind_eq _ _ = false

-- `PartialEq for Error`: two i/o errors are compared by their kinds alone.
unfoldable pub eq : Error → Error → Bool
unfolding kind_eq
eq empty_key empty_key = true
eq corrupted_record corrupted_record = true
eq invalid_checksum invalid_checksum = true
eq invalid_manifest invalid_manifest = true
eq key_too_large key_too_large = true
eq value_too_large value_too_large = true
eq (compaction a) (compaction b) = str_eq a b
eq (io a) (io b) = kind_eq a.kind b.kind
eq _ _ = false

-- `Display for Error`
unfoldable pub to_string : Error → String
to_string (io source) = concat "i/o error: " source.message
to_string empty_key = "keys must not be empty"
to_string corrupted_record = "corrupted record"
to_string invalid_checksum = "invalid checksum"
to_string invalid_manifest = "invalid manifest"
to_string key_too_large = "key exceeds the maximum allowed size"
to_string value_too_large = "value exceeds the maximum allowed size"
to_string (compaction message) = concat "compaction error: " message
