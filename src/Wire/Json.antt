-- ===== src/Wire/Json.antt =====
-- The values that `json.loads` makes, and what the program does with them. A float is kept by its
-- integral part, which is all that `int(...)` reads of it.
use crypto_project.Base.{
  ℤ, pos, Bool, ◌===◌, if◌then◌else◌, Outcome, ok, raise, key_error, type_error, value_error,
  overflow_error,
}
use crypto_project.Text.{Text}
use crypto_project.Wire.{MsgType}

mutual
  pub data Json : Type 0 where
    null nan infinity : Json
    bool : Bool → Json
    int real : ℤ → Json
    str : Text → Json
    arr : Items → Json
    obj : Fields → Json

  pub data Items : Type 0 where
    nil : Items
    item : Json → Items → Items

  pub data Fields : Type 0 where
    end : Fields
    field : Text → Json → Fields → Fields

-- A pair of a type and a payload, as `send_message` takes it and `recv_message` gives it.
abbrev pub Message : Type 0
Message = MsgType × Fields

-- `d[key]`
unfoldable pub get_item : Text → Fields → Outcome Json
get_item key end = raise key_error
get_item key (field k v fs) = let rest = get_item key fs in if k === key then ok v else rest

-- `v[key]` of any value
unfoldable pub subscript : Text → Json → Outcome Json
subscript key (obj fs) = get_item key fs
subscript key other = raise type_error

-- `int(v)`; what it reads in a text is `int_of`.
unfoldable pub to_int : (Text → Outcome ℤ) → Json → Outcome ℤ
to_int int_of (bool b) = ok (pos (if b then 1 else 0))
to_int int_of (int n) = ok n
to_int int_of (real n) = ok n
to_int int_of nan = raise value_error
to_int int_of infinity = raise overflow_error
to_int int_of (str s) = int_of s
to_int int_of other = raise type_error
