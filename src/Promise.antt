-- ===== src/Promise.antt =====
-- Promises that have settled, and what an exception carries.
use gps_connector.Prelude.{Text, Option, none, some}

-- A request that failed on the way, an answer that is no success with the message of the error, an
-- answer that is no JSON, taking apart what is not there, and a time that is out of range.
pub data Failure : Type 0 where
  network : Failure
  http : (message : Text) → Failure
  bad_json : Failure
  type_error : Failure
  range_error : Failure

pub data Settled {ℓ} (A : Type ℓ) : Type ℓ where
  fulfilled : A → Settled A
  rejected : Failure → Settled A

infixl 5 ◌>>=◌
abbrev pub ◌>>=◌ {ℓ κ} : {A : Type ℓ} {B : Type κ} → Settled A → (A → Settled B) → Settled B
fulfilled a >>= k = k a
rejected e >>= k = rejected e

-- `none` is a TypeError.
abbrev pub checked {ℓ} : {A : Type ℓ} → Option A → Settled A
checked none = rejected type_error
checked (some a) = fulfilled a

-- `toISOString`, where `none` is a RangeError.
abbrev pub written {ℓ} : {A : Type ℓ} → Option A → Settled A
written none = rejected range_error
written (some a) = fulfilled a
