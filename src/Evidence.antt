-- ===== src/Evidence.antt =====
-- src/wendougee_data/evidence.py: the values of its documents. A number is kept in tenths, a value
-- that the source never equals to one of its own is `unlike`. A time of the bundle is in UTC.
pub mod Hex
pub mod Records
use wendougee_data_ha.Base.{
  ℕ, List, [], ◌∷◌, Bool, true, false, ◌&&◌, Option, none, some, String, Error, Result, ok, err,
  value_error, length, ◌==◌, text_eq, if◌then◌else◌,
}
use wendougee_data_ha.Journal.{Instant}

pub data EvidenceSource : Type 0 where
  synthetic hardware_capture : EvidenceSource

pub data PrivacyStatus : Type 0 where
  private_unreviewed public_sanitized : PrivacyStatus

pub data Scalar : Type 0 where
  null unlike : Scalar
  flag : Bool → Scalar
  number : ℕ → Scalar
  words : String → Scalar

-- a datetime without a time zone, or the instant of one with an offset
pub data Timestamp : Type 0 where
  naive : ℕ → Timestamp
  zoned : Instant → ℕ → Timestamp

-- What the code takes from the interpreter: the search for the sensitive patterns, the ISO text of
-- a time in UTC and its reading, `str.replace` with the old text before the new, and upper case.
pub record Texts : Type 0 where
  pub is_sensitive : String → Bool
  pub isoformat : Instant → String
  pub from_iso : String → Option Timestamp
  pub replace : String → String → String → String
  pub upper : String → String

-- a flag is a number
abbrev pub flag_number : Bool → ℕ
flag_number true = 10
flag_number false = 0

-- `a == b`
abbrev pub scalar_eq : Scalar → Scalar → Bool
scalar_eq null null = true
scalar_eq (flag a) (flag b) = flag_number a == flag_number b
scalar_eq (flag a) (number n) = flag_number a == n
scalar_eq (number n) (flag b) = n == flag_number b
scalar_eq (number m) (number n) = m == n
scalar_eq (words s) (words t) = text_eq s t
scalar_eq _ _ = false

-- two lists
abbrev pub scalars_eq : List Scalar → List Scalar → Bool
scalars_eq [] [] = true
scalars_eq (a ∷ rest) (b ∷ rest') = scalar_eq a b && scalars_eq rest rest'
scalars_eq _ _ = false

abbrev pub Dict : Type 0
Dict = List (String × Scalar)

-- a key's value
abbrev pub find : String → Dict → Option Scalar
find key [] = none
find key ((k, v) ∷ rest) = if text_eq key k then some v else find key rest

abbrev pub is_value : Option Scalar → Scalar → Bool
is_value none b = false
is_value (some a) b = scalar_eq a b

abbrev pub has_all : Dict → Dict → Bool
has_all d [] = true
has_all d ((k, v) ∷ rest) = is_value (find k d) v && has_all d rest

-- two dictionaries, whose keys differ from each other
abbrev pub dict_eq : Dict → Dict → Bool
dict_eq d e = (length d == length e) && has_all d e
