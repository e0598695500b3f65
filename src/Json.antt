-- ===== src/Json.antt =====
-- Values of `nlohmann::json`, as the program builds them.
use bittorrent_peer_linking.Base.{
  Option, none, some, str_eq, List, [], ◌∷◌, ◌++◌, ℤ, Bool, String, if◌then◌else◌, is_empty,
}
use bittorrent_peer_linking.Double.{Double}

mutual
  pub data Json (D : Double) : Type 0 where
    null : Json D
    boolean : Bool → Json D
    integer : ℤ → Json D
    real : D.Real → Json D
    string : String → Json D
    array : Items D → Json D
    object : Members D → Json D

  pub data Items (D : Double) : Type 0 where
    nil : Items D
    cons : Json D → Items D → Items D

  pub data Members (D : Double) : Type 0 where
    end : Members D
    member : String → Json D → Members D → Members D

module _ {D : Double} where
  -- The members of an initializer list.
  unfoldable pub members_of : List (String × Json D) → Members D
  members_of [] = end
  members_of ((key, value) ∷ rest) = member key value (members_of rest)

  -- `payload[key] = value` for a key that is not there yet.
  unfoldable pub with_member : Members D → String → Json D → Members D
  with_member end key value = member key value end
  with_member (member k v rest) key value = member k v (with_member rest key value)

module _ {D : Double} where
  -- `value.find(key)`; what is no object has no members.
  unfoldable pub find_member : String → Members D → Option (Json D)
  find_member key end = none
  find_member key (member k v rest) = if str_eq key k then some v else find_member key rest

  unfoldable pub value_find : Json D → String → Option (Json D)
  unfolding find_member
  value_find (object members) key = find_member key members
  value_find _ key = none

  -- `object[key] = value`
  unfoldable pub set_member : Members D → String → Json D → Members D
  set_member end key value = member key value end
  set_member (member k v rest) key value =
      if str_eq key k then member k value rest else member k v (set_member rest key value)

  -- `array.push_back(value)`
  unfoldable pub push_item : Items D → Json D → Items D
  push_item nil value = cons value nil
  push_item (cons v rest) value = cons v (push_item rest value)

-- The texts that a value holds, its keys among them.
mutual
  pub texts_of : {D : Double} → Json D → List String
  texts_of null = []
  texts_of (boolean b) = []
  texts_of (integer n) = []
  texts_of (real x) = []
  texts_of (string text) = text ∷ []
  texts_of (array items) = texts_of_items items
  texts_of (object members) = texts_of_members members

  pub texts_of_items : {D : Double} → Items D → List String
  texts_of_items nil = []
  texts_of_items (cons value items) = texts_of value ++ texts_of_items items

  pub texts_of_members : {D : Double} → Members D → List String
  texts_of_members end = []
  texts_of_members (member key value rest) = key ∷ (texts_of value ++ texts_of_members rest)

-- `null_if_empty` of src/main.cpp and `optional_string` of the writers.
unfoldable pub null_if_empty : (D : Double) → String → Json D
null_if_empty D value = if is_empty value then null else string value

-- `strings_to_json_array` of src/util.cpp
unfoldable pub strings_to_json_array : (D : Double) → List String → Items D
strings_to_json_array D [] = nil
strings_to_json_array D (value ∷ values) = cons (string value) (strings_to_json_array D values)

-- `optional_double` of src/peer_stats.cpp and src/summary_writer.cpp, and `optional_number` of
-- src/util.cpp.
unfoldable pub optional_number : (D : Double) → Option D.Real → Json D
optional_number D none = null
optional_number D (some value) = real value
