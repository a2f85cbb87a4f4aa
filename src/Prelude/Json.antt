-- ===== src/Prelude/Json.antt =====
-- The values that Python's `json` makes.
use strmline.Prelude.{ℕ, suc, String, Bool, true, false, if◌then◌else◌, ◌==◌, string_eq}
use strmline.Prelude.Text.{str_of_nat}
use Prim.Native.String.{◌++◌ as ◌followed_by◌}

-- Python's `int`, by the library's names.
pub data ℤ : Type 0 where
  pos : ℕ → ℤ
  negsuc : ℕ → ℤ

-- `str(value)`
unfoldable pub str_of_int : ℤ → String
unfolding str_of_nat
str_of_int (ℤ.pos n) = str_of_nat n
str_of_int (ℤ.negsuc n) = "-" followed_by str_of_nat (suc n)

mutual
  -- A `float` is the text that it is read from.
  pub data Json : Type 0 where
    null : Json
    boolean : Bool → Json
    integer : ℤ → Json
    float : String → Json
    text : String → Json
    array : Items → Json
    object : Fields → Json

  pub data Items : Type 0 where
    nil : Items
    cons : Json → Items → Items

  pub data Fields : Type 0 where
    end : Fields
    field : String → Json → Fields → Fields

-- `data.get(key)`: `None` stands for a missing key.
abbrev pub get : String → Fields → Json
get key Fields.end = Json.null
get key (Fields.field name value rest) = if key == name then value else get key rest

-- `isinstance(value, list)`
abbrev pub is_list : Json → Bool
is_list (Json.array _) = true
is_list _ = false

-- `value is False`
abbrev pub is_false : Json → Bool
is_false (Json.boolean false) = true
is_false _ = false
