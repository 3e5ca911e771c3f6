-- ===== src/Survival/Value.antt =====
-- The payload of a domain event: Go's `map[string]any`, by the dynamic types that the program puts
-- into it or asserts of it.
use clawvival.Base.{ℕ, ℤ, String, Bool, List, Option, none, some, str_eq, if◌then◌else◌}
use clawvival.Base.Dict.{Dict}

mutual
  pub data Value : Type 0 where
    nil : Value
    bool : Bool → Value
    int : ℤ → Value
    text : String → Value
    texts : List String → Value
    time : ℕ → Value
    ints : Dict ℤ → Value
    list : Values → Value
    obj : Fields → Value

  -- `[]map[string]any`
  pub data Values : Type 0 where
    end : Values
    item : Value → Values → Values

  -- `map[string]any`
  pub data Fields : Type 0 where
    done : Fields
    field : String → Value → Fields → Fields

-- `m[k]`; a missing key reads as nil.
unfoldable pub get : String → Fields → Value
get k done = nil
get k (field j v m) = if str_eq j k then v else get k m

-- `m[k] = v`
unfoldable pub set : String → Value → Fields → Fields
set k v done = field k v done
set k v (field j w m) = if str_eq j k then field k v m else field j w (set k v m)

-- `v.(map[string]any)`, none where the assertion fails.
abbrev pub as_obj : Value → Option Fields
as_obj (obj m) = some m
as_obj _ = none

-- `v.(string)`, with the empty text where the assertion fails.
abbrev pub as_text : Value → String
as_text (text s) = s
as_text _ = ""
