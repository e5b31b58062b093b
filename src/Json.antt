-- ===== src/Json.antt =====
-- The values that `json` decodes to, and the reads that Python makes of them: a transaction is
-- such a dict, and tx.py tests its shape before it uses it.
use lapsecoin.Prelude.{
  ℕ, String, ◌≡◌, refl, Bool, true, false, Option, none, some, ◌||◌, str_eq, if◌then◌else◌,
}
use lapsecoin.Prelude.Int.{ℤ, pos}
use lapsecoin.Prelude.Result.{Result, ok, raised, key_error, type_error, attribute_error}
use text.Mathlib.Text.{find?}

-- A float is counted in millionths; the program never does arithmetic on one in a transaction.
mutual
  pub data Json : Type 0 where
    null : Json
    bool : Bool → Json
    int : ℤ → Json
    float : ℤ → Json
    str : String → Json
    arr : Items → Json
    obj : Fields → Json

  pub data Items : Type 0 where
    nil : Items
    cons : Json → Items → Items

  pub data Fields : Type 0 where
    end : Fields
    field : String → Json → Fields → Fields

-- d.get(k)
abbrev pub get : String → Fields → Option Json
get k end = none
get k (field j v d) = if str_eq j k then some v else get k d

-- d[k]
abbrev pub or_key_error : Option Json → Result Json
or_key_error none = raised key_error
or_key_error (some v) = ok v

abbrev pub index : String → Fields → Result Json
index k d = or_key_error (get k d)

-- `isinstance(v, int)` holds of a bool too, which counts as 0 or 1.
abbrev pub int_of : Json → Option ℤ
int_of (int z) = some z
int_of (bool true) = some (pos 1)
int_of (bool false) = some (pos 0)
int_of _ = none

abbrev pub str_of : Json → Option String
str_of (str s) = some s
str_of _ = none

-- A number or a text where the code computes with one; any other value is an exception.
abbrev pub or_type_error {ℓ} : {A : Type ℓ} → Option A → Result A
or_type_error none = raised type_error
or_type_error (some a) = ok a

abbrev pub as_int : Json → Result ℤ
as_int v = or_type_error (int_of v)

abbrev pub as_str : Json → Result String
as_str v = or_type_error (str_of v)

-- `v == s` against a text.
abbrev pub is_str : Json → String → Bool
is_str (str t) s = str_eq t s
is_str _ s = false

unfoldable pub has_item : String → Items → Bool
has_item k nil = false
has_item k (cons v vs) = is_str v k || has_item k vs

abbrev is_found : Option ℕ → Bool
is_found none = false
is_found (some _) = true

abbrev is_present : Option Json → Bool
is_present none = false
is_present (some _) = true

-- `k in v`: a key of a dict, an element of a list, a piece of a text.
unfoldable pub contains : String → Json → Result Bool
unfolding has_item
contains k (obj d) = ok (is_present (get k d))
contains k (arr vs) = ok (has_item k vs)
contains k (str s) = ok (is_found (find? s k))
contains k _ = raised type_error

-- `v[k]` for a text k: of a dict only.
unfoldable pub subscript : String → Json → Result Json
subscript k (obj d) = index k d
subscript k _ = raised type_error

-- `v.startswith`, `v.encode`: a text's methods.
abbrev pub or_attribute_error : Option String → Result String
or_attribute_error none = raised attribute_error
or_attribute_error (some s) = ok s

contains_runs : contains "to" (str "goto") ≡ ok true
unfolding contains
contains_runs = refl
