-- ===== src/Common/Config.antt =====
-- cpp/common/config.cpp: the settings and the file they are kept in. A string is the list of its
-- bytes, the map is its entries in the order of their keys, and a file that cannot be opened is
-- `none`. The mutex makes each function one step.
mod Text
pub mod Stored
pub mod Typed
mod Tests
use remote_play.Prelude.{
  ℕ, List, [], ◌∷◌, ◌++◌, Bool, true, false, ◌||◌, Option, none, some, ltb, ◌==◌, if◌then◌else◌,
  ◌+◌, leb, ◌&&◌, map,
}
use Text.{cut, strip_comment, trim, lines}

-- std::less on strings.
unfoldable pub before : List ℕ → List ℕ → Bool
before [] [] = false
before [] (y ∷ ys) = true
before (x ∷ xs) [] = false
before (x ∷ xs) (y ∷ ys) =
    let rest = before xs ys in if ltb x y then true else if ltb y x then false else rest

abbrev pub Settings : Type 0
Settings = List (List ℕ × List ℕ)

-- m_settings[key] = value
unfoldable pub assign : List ℕ → List ℕ → Settings → Settings
assign k v [] = (k, v) ∷ []
assign k v ((j, w) ∷ m) =
    let rest = assign k v m in
    if before j k then (j, w) ∷ rest else if before k j then (k, v) ∷ (j, w) ∷ m else (j, v) ∷ m

-- m_settings.find(key)
unfoldable pub find : List ℕ → Settings → Option (List ℕ)
find k [] = none
find k ((j, w) ∷ m) =
    let rest = find k m in if before j k then rest else if before k j then none else some w

pub record Config : Type 0 where
  pub settings : Settings
  pub filename : List ℕ
  pub last_load_time : ℕ

-- The key is kept unless it is empty.
unfoldable pub store : List ℕ → List ℕ → Settings → Settings
store [] v m = m
store (c ∷ cs) v m = assign (c ∷ cs) v m

unfoldable pub store_entry : Option (List ℕ × List ℕ) → Settings → Settings
store_entry none m = m
store_entry (some (key, value)) m = store (trim key) (trim value) m

-- The body of the loop over the lines.
unfoldable pub read_line : List ℕ → Settings → Settings
read_line line m = store_entry (cut b'=' (strip_comment line)) m

unfoldable pub read_lines : List (List ℕ) → Settings → Settings
read_lines [] m = m
read_lines (l ∷ ls) m = read_lines ls (read_line l m)

-- load: the answer and the object afterwards.
unfoldable pub load : Config → List ℕ → Option (List ℕ) → ℕ → Bool × Config
load c name none now = (false, record c { filename = name; last_load_time = now })
load c name (some text) now = (
  true,
  record { settings = read_lines (lines text) c.settings; filename = name; last_load_time = now },
)

-- checkHotReload, with the time at which the file was last written where it can be asked for.
unfoldable pub check_hot_reload : Config → Option ℕ → Option (List ℕ) → ℕ → Config
check_hot_reload c none text now = c
check_hot_reload c (some written) text now = elim c.filename [
  | [] ↦ c
  | b ∷ bs ↦ if ltb c.last_load_time written then (load c (b ∷ bs) text now).1 else c
]

-- What save writes.
unfoldable pub print : Settings → List ℕ
print [] = []
print ((k, v) ∷ m) = (k ++ b'=' ∷ v) ++ b'\n' ∷ print m

-- save: the answer and the file's new content where it could be opened.
unfoldable pub save : Config → Bool → Bool × Option (List ℕ)
save c opened = if opened then (true, some (print c.settings)) else (false, none)

abbrev pub or_default : Option (List ℕ) → List ℕ → List ℕ
or_default none default_value = default_value
or_default (some v) default_value = v

unfoldable pub get_string : Config → List ℕ → List ℕ → List ℕ
get_string c key default_value = or_default (find key c.settings) default_value

unfoldable pub set_string : Config → List ℕ → List ℕ → Config
set_string c key value = record c { settings = assign key value c.settings }

-- ::tolower on a byte
unfoldable pub to_lower : ℕ → ℕ
to_lower b = if leb b'A' b && leb b b'Z' then b + 32 else b

unfoldable pub equals : List ℕ → List ℕ → Bool
equals [] [] = true
equals [] (y ∷ ys) = false
equals (x ∷ xs) [] = false
equals (x ∷ xs) (y ∷ ys) = (x == y) && equals xs ys

abbrev pub true_text : List ℕ
true_text = b't' ∷ b'r' ∷ b'u' ∷ b'e' ∷ []

abbrev pub false_text : List ℕ
false_text = b'f' ∷ b'a' ∷ b'l' ∷ b's' ∷ b'e' ∷ []

abbrev pub yes_text : List ℕ
yes_text = b'y' ∷ b'e' ∷ b's' ∷ []

-- The end of getBool, on the string that it got.
unfoldable pub read_bool : List ℕ → Bool → Bool
read_bool [] default_value = default_value
read_bool (b ∷ bs) default_value =
    let val = map to_lower (b ∷ bs) in
    equals val true_text || (equals val (b'1' ∷ []) || equals val yes_text)

unfoldable pub get_bool : Config → List ℕ → Bool → Bool
get_bool c key default_value = read_bool (get_string c key []) default_value

unfoldable pub set_bool : Config → List ℕ → Bool → Config
set_bool c key value = set_string c key (if value then true_text else false_text)
