-- ===== src/Json.antt =====
-- JSON documents as the code reads them: what `json.loads` gives, and the dict methods used on it
-- (`get`, item assignment, `update`, truth). A text column that holds JSON is its parsed document.
pub mod Laws
use user_token_management_ap.Prelude.{
  ℕ, String, Bool, true, false, not, Option, none, some, str_eq, ◌==◌, if◌then◌else◌,
}

mutual
  -- `float` keeps whether it is zero and the literal; `negative n` is -(n + 1).
  pub data Value : Type 0 where
    null : Value
    boolean : Bool → Value
    int : ℕ → Value
    negative : ℕ → Value
    float : Bool → String → Value
    text : String → Value
    array : Items → Value
    object : Fields → Value

  pub data Items : Type 0 where
    nil : Items
    cons : Value → Items → Items

  -- the entries of a dict, in insertion order
  pub data Fields : Type 0 where
    end : Fields
    field : String → Value → Fields → Fields

-- `bool(value)`
abbrev pub truthy : Value → Bool
truthy null = false
truthy (boolean b) = b
truthy (int n) = not (n == 0)
truthy (negative n) = true
truthy (float is_zero literal) = not is_zero
truthy (text s) = not (str_eq s "")
truthy (array nil) = false
truthy (array (cons v vs)) = true
truthy (object end) = false
truthy (object (field k v fs)) = true

-- `d.get(key)`
unfoldable pub get : String → Fields → Option Value
get k end = none
get k (field j v fs) = if str_eq j k then some v else get k fs

-- `d[key] = value`
unfoldable pub put : String → Value → Fields → Fields
put k v end = field k v end
put k v (field j w fs) = if str_eq j k then field j v fs else field j w (put k v fs)

-- `d.update(e)`
unfoldable pub update : Fields → Fields → Fields
update d end = d
update d (field k v fs) = update (put k v d) fs

-- `bool(d.get(key))`
abbrev pub flag : Option Value → Bool
flag none = false
flag (some v) = truthy v

-- A JSON column: `json.loads(column or "{}")` fails, gives something that is no dict, or a dict.
pub data Document : Type 0 where
  unreadable : Document
  other : Document
  dict : Fields → Document

abbrev pub load : Option Document → Document
load none = dict end
load (some d) = d

-- the dict, or an empty one where there is none
abbrev pub fields_of : Document → Fields
fields_of unreadable = end
fields_of other = end
fields_of (dict fs) = fs
