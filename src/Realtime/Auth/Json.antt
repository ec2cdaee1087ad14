-- ===== src/Realtime/Auth/Json.antt =====
-- auth.py: the values of `json`, with the checks of `_strict_json_object` and the order of `_canonical_json`.
use evoagent_os.Base.{
  String, Bool, true, false, not, ◌&&◌, ◌||◌, List, [], ◌∷◌, Option, ◌==◌, if◌then◌else◌,
}
use evoagent_os.Base.Texts.{le_text}
use evoagent_os.Realtime.Protocol.{ℤ}

-- What the parser of `json` reads: an object with its members in the order of the text, and a float with
-- the integer that it equals, if there is one. `non_finite` is NaN and the infinities.
mutual
  pub data Json : Type 0 where
    null non_finite : Json
    boolean : Bool → Json
    int : ℤ → Json
    float : Option ℤ → Json
    text : String → Json
    array : Items → Json
    object : Members → Json

  pub data Items : Type 0 where
    nil : Items
    cons : Json → Items → Items

  pub data Members : Type 0 where
    end : Members
    member : String → Json → Members → Members

unfoldable pub has_key : String → Members → Bool
has_key key end = false
has_key key (member k v more) = k == key || has_key key more

-- The checks of `unique_pairs` and `parse_constant`, in every object of a value.
unfoldable mutual
  pub strict : Json → Bool
  strict null = true
  strict non_finite = false
  strict (boolean b) = true
  strict (int n) = true
  strict (float n) = true
  strict (text s) = true
  strict (array xs) = strict_items xs
  strict (object ms) = strict_members ms

  pub strict_items : Items → Bool
  strict_items nil = true
  strict_items (cons x xs) = strict x && strict_items xs

  pub strict_members : Members → Bool
  strict_members end = true
  strict_members (member k v more) = not (has_key k more) && strict v && strict_members more

-- `payload.get(key)`.
unfoldable pub claim : String → Members → Json
claim key end = null
claim key (member k v more) = if k == key then v else claim key more

abbrev pub keys : Members → List String
keys end = []
keys (member k v more) = k ∷ keys more

unfoldable pub insert_member : String → Json → Members → Members
insert_member key value end = member key value end
insert_member key value (member k v more) =
    let rest = insert_member key value more in
    if le_text key k then member key value (member k v more) else member k v rest

-- `sort_keys`, in every object of a value.
unfoldable mutual
  pub canonical : Json → Json
  canonical null = null
  canonical non_finite = non_finite
  canonical (boolean b) = boolean b
  canonical (int n) = int n
  canonical (float n) = float n
  canonical (text s) = text s
  canonical (array xs) = array (canonical_items xs)
  canonical (object ms) = object (canonical_members ms)

  pub canonical_items : Items → Items
  canonical_items nil = nil
  canonical_items (cons x xs) = cons (canonical x) (canonical_items xs)

  pub canonical_members : Members → Members
  canonical_members end = end
  canonical_members (member k v more) = insert_member k (canonical v) (canonical_members more)
