-- ===== src/Utils/Validate.antt =====
-- utils/validate.go: the rules for names, labels and other fields. A text is the list of its bytes. The registration
-- with the library validator is outside; a rule is what it makes of the value of a field.
pub mod Names
pub mod Labels
use jopa.Common.{
  ℕ, String, codes, Bool, true, false, not, ◌&&◌, ◌||◌, ◌==◌, ◌+◌, List, [], ◌∷◌, length, leb, any,
  Option, none, some, if◌then◌else◌,
}
use jopa.Common.Dict.{Dict}
use jopa.Mqtt.Topic.{contains, split}
use jopa.Utils.Regexp.{
  Text, Regexp, class, sequence, either, repeated, one, many, optional, one_of, matches, is_lower,
  is_upper, is_digit,
}

abbrev pub is_small : ℕ → Bool
is_small c = is_lower c || is_digit c

abbrev pub is_alnum : ℕ → Bool
is_alnum c = is_lower c || is_upper c || is_digit c

-- An end of the class, up to 61 of the wider class, an end.
abbrev pub name_like : (ℕ → Bool) → (ℕ → Bool) → Regexp
name_like end middle = sequence (one end) (sequence (class middle 0 (some 61)) (one end))

-- `^[a-z0-9][-a-z0-9.]{0,61}[a-z0-9]$`
abbrev pub res_name : Regexp
res_name = name_like is_small (λ c. c == b'-' || is_small c || c == b'.')

-- `^[a-z0-9][-a-z0-9]{0,61}[a-z0-9]$`
abbrev pub svc_name : Regexp
svc_name = name_like is_small (λ c. c == b'-' || is_small c)

-- `^[a-zA-Z0-9][-a-zA-Z0-9.]{0,61}[a-zA-Z0-9]$`
abbrev pub fingerprint : Regexp
fingerprint = name_like is_alnum (λ c. c == b'-' || is_alnum c || c == b'.')

-- `[1-9][0-9]*`, as in the two patterns that follow.
abbrev pub positive : Regexp
positive = sequence (one (λ c. is_digit c && not (c == b'0'))) (many is_digit)

-- `^[1-9][0-9]*(k|m|g|t|p|)$`
abbrev pub memory : Regexp
memory =
    sequence positive (one_of (codes "k" ∷ codes "m" ∷ codes "g" ∷ codes "t" ∷ codes "p" ∷ [] ∷ []))

-- `^[1-9][0-9]*(s|m|h)$`
abbrev pub duration : Regexp
duration = sequence positive (one_of (codes "s" ∷ codes "m" ∷ codes "h" ∷ []))

-- `^[a-zA-Z0-9\-_]{1,32}$`
abbrev pub dev_model : Regexp
dev_model = class (λ c. is_alnum c || c == b'-' || c == b'_') 1 (some 32)

-- `[a-z0-9]([-a-z0-9]*[a-z0-9])?`
abbrev pub namespace_part : Regexp
namespace_part =
    sequence (one is_small)
      (optional (sequence (many (λ c. c == b'-' || is_small c)) (one is_small)))

-- `^[a-z0-9]([-a-z0-9]*[a-z0-9])?([a-z0-9]([-a-z0-9]*[a-z0-9])?)*$`
abbrev pub namespace : Regexp
namespace = sequence namespace_part (repeated namespace_part)

-- `^[-._a-zA-Z0-9]+$`
abbrev pub config_key : Regexp
config_key = class (λ c. c == b'-' || c == b'.' || c == b'_' || is_alnum c) 1 none

-- `^(int16|...)?$` of these words.
abbrev pub optional_word : List String → Regexp
optional_word words = optional (one_of (texts words))
  where
    texts : List String → List Text
    texts [] = []
    texts (w ∷ ws) = codes w ∷ texts ws

abbrev pub data_type : Regexp
data_type =
    optional_word (
      "int16" ∷ "int32" ∷ "int64" ∷ "float32" ∷ "float64" ∷ "string" ∷ "bool" ∷ "time" ∷ "date"
      ∷ [])

abbrev pub enum_type : Regexp
enum_type = optional_word ("int16" ∷ "int32" ∷ "int64" ∷ "string" ∷ [])

abbrev pub data_plus_type : Regexp
data_plus_type = optional_word (
    "int16" ∷ "int32" ∷ "int64" ∷ "float32" ∷ "float64" ∷ "string" ∷ "time" ∷ "date" ∷ "bool"
    ∷ "array" ∷ "enum" ∷ "object" ∷ [])

-- `regexps`, by the name of the rule.
abbrev pub regexps : Dict Regexp
regexps =
    ("res_name", res_name)
    ∷ ("svc_name", svc_name)
    ∷ ("fingerprint", fingerprint)
    ∷ ("memory", memory)
    ∷ ("duration", duration)
    ∷ ("dev_model", dev_model)
    ∷ ("namespace", namespace)
    ∷ ("config_key", config_key)
    ∷ ("data_type", data_type)
    ∷ ("enum_type", enum_type)
    ∷ ("data_plus_type", data_plus_type)
    ∷ []

-- `^([A-Za-z0-9][-A-Za-z0-9_\.]*)?[A-Za-z0-9]?$`
abbrev pub is_wide : ℕ → Bool
is_wide c = c == b'-' || is_alnum c || c == b'_' || c == b'.'

abbrev pub label_regexp : Regexp
label_regexp =
    sequence (optional (sequence (one is_alnum) (many is_wide))) (optional (one is_alnum))

-- A key without a slash, or what stands behind the one slash of a key; and a value.
unfoldable pub valid_part : ℕ → Text → Bool
unfolding matches
valid_part high w = leb (length w) high && matches label_regexp w

-- The two parts of a key with a slash.
valid_split : List Text → Bool
unfolding valid_part
valid_split (prefix ∷ name ∷ []) =
    leb 1 (length prefix) && valid_part 253 prefix && valid_part 63 name
valid_split _ = false

unfoldable pub valid_key : Text → Bool
unfolding valid_part valid_split split contains
valid_key k = if contains b'/' k then valid_split (split k) else valid_part 63 k

-- `validLabelsFunc`, of a field that is a map.
unfoldable pub valid_labels : List (Text × Text) → Bool
unfolding valid_key
valid_labels [] = true
valid_labels ((k, v) ∷ labels) = valid_key k && valid_part 63 v && valid_labels labels

-- What reflect tells of the value of a field: the number of characters, whether it is nil, its length, whether it is
-- zero.
pub data Reflected : Type 0 where
  text_of : ℕ → Reflected
  pointer : Bool → Reflected
  container : ℕ → Reflected
  number : Bool → Reflected
  boolean : Bool → Reflected
  invalid structure other_kind : Reflected

-- `nonzeroValid`
unfoldable pub nonzero_valid : Reflected → Bool
nonzero_valid (text_of characters) = not (characters == 0)
nonzero_valid (pointer is_nil) = not is_nil
nonzero_valid (container len) = not (len == 0)
nonzero_valid (number is_zero) = not is_zero
nonzero_valid (boolean b) = b
nonzero_valid invalid = false
nonzero_valid structure = true
nonzero_valid other_kind = false

-- `nonnilValid`
unfoldable pub nonnil_valid : Reflected → Bool
nonnil_valid (pointer is_nil) = not is_nil
nonnil_valid invalid = false
nonnil_valid _ = true

-- strings.ToLower of one byte; a byte that is not ASCII stays.
abbrev pub lower : ℕ → ℕ
lower c = if is_upper c then c + 32 else c

unfoldable pub starts_with : Text → Text → Bool
starts_with [] w = true
starts_with (c ∷ prefix) [] = false
starts_with (c ∷ prefix) (d ∷ w) = c == lower d && starts_with prefix w

-- `!strings.Contains(strings.ToLower(text), "baetyl")`
unfoldable pub non_baetyl : Text → Bool
unfolding starts_with
non_baetyl [] = true
non_baetyl (c ∷ w) = not (starts_with (codes "baetyl") (c ∷ w)) && non_baetyl w
