-- ===== src/Language/Json.antt =====
-- The values that `json.loads` gives to src/unhalted/core, with the tests and the look-ups that the
-- source makes of them. A float is a number of millionths; no negative number is modelled.
use unhalted.Prelude.{
  ℕ, Bool, true, false, not, ◌==◌, String, str_eq, Option, none, some, List, if◌then◌else◌,
}

mutual
  pub data Json : Type 0 where
    null : Json
    flag : Bool → Json
    number : ℕ → Json
    int : ℕ → Json
    text : String → Json
    arr : Items → Json
    obj : Fields → Json

  pub data Items : Type 0 where
    nil : Items
    cons : Json → Items → Items

  pub data Fields : Type 0 where
    end : Fields
    field : String → Json → Fields → Fields

-- `d.get(key)`; the keys of a dictionary differ
unfoldable pub get : String → Fields → Option Json
get key end = none
get key (field k v rest) = if str_eq k key then some v else get key rest

-- `bool(value)`
abbrev pub is_true : Json → Bool
is_true null = false
is_true (flag b) = b
is_true (number n) = not (n == 0)
is_true (int n) = not (n == 0)
is_true (text s) = not (str_eq s "")
is_true (arr nil) = false
is_true (arr (cons x xs)) = true
is_true (obj end) = false
is_true (obj (field k v rest)) = true

-- `d.get(key) or None`
unfoldable pub get_true : String → Fields → Option Json
unfolding get
get_true key d = elim (get key d) [ none ↦ none | some v ↦ if is_true v then some v else none ]

-- What the source asks of Python's library and of the fields of an answer.
pub record Outside : Type 0 where
  -- `str` of a value that is no text
  pub repr : Json → String
  -- what `str.casefold` makes of one code point
  pub fold : ℕ → List ℕ
  -- `json.loads`; none is its error
  pub loads : List ℕ → Option Json
  -- `float` of a text; none is its error
  pub float_of : String → Option ℕ

module _ (o : Outside) where
  -- `str(d.get(key) or "")`
  abbrev pub text_of : Option Json → String
  text_of none = ""
  text_of (some (text s)) = s
  text_of (some v) = o.repr v

  unfoldable pub get_text : String → Fields → String
  unfolding get_true
  get_text key d = text_of (get_true key d)
