-- ===== src/Utils/Samples.antt =====
-- The rules of utils/validate.go at concrete texts.
use jopa.Common.{codes, true, false, ◌||◌, ◌==◌, List, [], ◌∷◌, All, ◌≡◌, refl, ◌↔◌}
use jopa.Utils.Regexp.{Text, matches, one_of}
use jopa.Utils.Validate.{
  res_name, svc_name, fingerprint, is_small, is_alnum, valid_labels, memory, namespace, data_type,
  non_baetyl,
}
use jopa.Utils.Validate.Names.{IsName, names_iff}
use jopa.Utils.Validate.Labels.{IsLabel, valid_labels_iff}

abbrev core : Text
core = codes "baetyl-core"

names_iff_example :
    ((matches res_name core ≡ true)
      ↔ IsName is_small (λ c. c == b'-' || is_small c || c == b'.') core)
    × ((matches svc_name core ≡ true) ↔ IsName is_small (λ c. c == b'-' || is_small c) core)
    × ((matches fingerprint core ≡ true)
        ↔ IsName is_alnum (λ c. c == b'-' || is_alnum c || c == b'.') core)
names_iff_example = names_iff core

-- The second value ends in a dash.
abbrev two_labels : List (Text × Text)
two_labels = (codes "baetyl.io/name", codes "core") ∷ (codes "zone", codes "a-") ∷ []

two_labels-valid : valid_labels two_labels ≡ true
unfolding valid_labels
two_labels-valid = refl

valid_labels_iff_example : (valid_labels two_labels ≡ true) ↔ All IsLabel two_labels
valid_labels_iff_example = valid_labels_iff two_labels

memory_run : matches memory (codes "512m") ≡ true
unfolding matches one_of
memory_run = refl

namespace_run : matches namespace (codes "a-b") ≡ true
unfolding matches
namespace_run = refl

data_type_run : matches data_type (codes "int16") ≡ true
unfolding matches one_of
data_type_run = refl

data_type_unknown : matches data_type (codes "int8") ≡ false
unfolding matches one_of
data_type_unknown = refl

non_baetyl_run : non_baetyl (codes "my-BAETYL") ≡ false
unfolding non_baetyl
non_baetyl_run = refl
