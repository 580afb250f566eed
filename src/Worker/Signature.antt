-- ===== src/Worker/Signature.antt =====
-- distributed/task: the signature of a task, with what the worker reads and writes of it, and the
-- metadata values that it converts. The remaining fields are only carried along.
use gkit.Prelude.{ℕ, Bool, true, false, Option, none, some, List, ◌∷◌, ◌++◌}
use gkit.Prelude.Int.{ℤ}
use gkit.Prelude.Map.{Map, String, ◌=?◌}

-- A value of interface type: a text, or another, which is told by a number.
pub data ArgValue : Type 0 where
  text : String → ArgValue
  other : ℕ → ArgValue

-- task.Arg and task.Result.
pub record Arg : Type 0 where
  pub kind : String
  pub value : ArgValue

-- A metadata value. A float64 is its integer part and whether it is that, a json.Number what its
-- Int64 gives, with `none` for an error.
pub data MetaValue : Type 0 where
  bool : Bool → MetaValue
  string : String → MetaValue
  int : ℤ → MetaValue
  float : ℤ → Bool → MetaValue
  number : Option ℤ → MetaValue
  unknown : MetaValue

pub record Fields : Type 0 where
  pub id : String
  pub name : String
  pub group_id : String
  pub retry_count : ℤ
  pub retry_interval : ℤ
  pub stop_task_deletion_on_error : Bool
  pub router : String
  pub args : List Arg
  pub meta : Option (Map MetaValue)
  pub eta : Option ℤ

mutual
  pub data Signature : Type 0 where
    -- CallbackOnSuccess, CallbackOnError and CallbackChord.
    signature : Fields → Signatures → Signatures → Chord → Signature

  pub data Signatures : Type 0 where
    nil : Signatures
    cons : Signature → Signatures → Signatures

  pub data Chord : Type 0 where
    no_chord : Chord
    chord : Signature → Chord

abbrev pub fields : Signature → Fields
fields (signature f ss es c) = f

abbrev pub on_success : Signature → Signatures
on_success (signature f ss es c) = ss

abbrev pub on_error : Signature → Signatures
on_error (signature f ss es c) = es

abbrev pub callback_chord : Signature → Chord
callback_chord (signature f ss es c) = c

abbrev pub with_fields : Fields → Signature → Signature
with_fields g (signature f ss es c) = signature g ss es c

-- `s.Args = append(s.Args, args...)`
abbrev pub append_args : List Arg → Signature → Signature
append_args args s = with_fields (record (fields s) { args = (fields s).args ++ args }) s

-- `s.Args = append([]task.Arg{arg}, s.Args...)`
abbrev pub prepend_arg : Arg → Signature → Signature
prepend_arg arg s = with_fields (record (fields s) { args = arg ∷ (fields s).args }) s

unfoldable pub metadata_bool : MetaValue → Bool
metadata_bool (bool b) = b
metadata_bool (string s) = s =? "true"
metadata_bool _ = false

-- `none` is a second result of false.
unfoldable pub metadata_int : MetaValue → Option ℤ
metadata_int (int n) = some n
metadata_int (float n exact) = elim exact [ true ↦ some n | false ↦ none ]
metadata_int (number n) = n
metadata_int _ = none
