-- ===== src/Flow/Classify.antt =====
-- flow/classify.go: error classes, their names, and the default classifier.
pub mod Laws
use flowkit.Base.{String, Bool, true, false, ◌&&◌, ◌||◌, Option, none, some, if◌then◌else◌, str_eq}
use flowkit.Base.Int.{ℤ, pos, leb_ℤ, ltb_ℤ, eqb_ℤ}
use flowkit.Errors.{
  Error, sentinel, message, wrapped, data_error, status_error, joined, canceled, deadline_exceeded,
  budget_exceeded, is_error, http_status, Result, ok, err,
}

-- Go's ErrorClass is an int: `other` stands for the values past Fatal and below Transient, which a
-- caller's classifier may return.
pub data ErrorClass : Type 0 where
  transient data_class fatal : ErrorClass
  other : ℤ → ErrorClass

unfoldable pub is_valid : ErrorClass → Bool
is_valid (other n) = false
is_valid _ = true

unfoldable pub class_name : ErrorClass → String
class_name transient = "transient"
class_name data_class = "data"
class_name fatal = "fatal"
class_name (other n) = "unknown"

pub marshal_text : ErrorClass → Result String
unfolding class_name
marshal_text (other n) = err (message "unknown error class %d")
marshal_text c = ok (class_name c)

pub unmarshal_text : String → Result ErrorClass
unmarshal_text text =
    if str_eq text "transient"
    then ok transient
    else if str_eq text "data"
    then ok data_class
    else if str_eq text "fatal"
    then ok fatal
    else err (message "unknown error class %q")

-- A nil error stays nil.
pub as_data_error : Option Error → Option Error
as_data_error none = none
as_data_error (some e) = some (data_error e)

-- errors.As into *dataError
unfoldable pub is_data_error : Error → Bool
is_data_error (sentinel t) = false
is_data_error (message m) = false
is_data_error (wrapped m e) = is_data_error e
is_data_error (data_error e) = true
is_data_error (status_error c e) = is_data_error e
is_data_error (joined a b) = is_data_error a || is_data_error b

unfoldable pub classify_status : Option ℤ → ErrorClass
classify_status none = fatal
classify_status (some code) =
    if eqb_ℤ code (pos 429)
      || (eqb_ℤ code (pos 408) || (leb_ℤ (pos 500) code && ltb_ℤ code (pos 600)))
    then transient
    else fatal

-- defaultClassifier.Classify on an error that is not nil
unfoldable pub classify_error : Error → ErrorClass
unfolding classify_status
classify_error e =
    if is_data_error e
    then data_class
    else if is_error canceled e || is_error deadline_exceeded e
    then fatal
    else if is_error budget_exceeded e
    then fatal
    else classify_status (http_status e)

unfoldable pub classify : Option Error → ErrorClass
classify none = fatal
classify (some e) = classify_error e
