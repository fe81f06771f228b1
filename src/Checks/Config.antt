-- ===== src/Checks/Config.antt =====
-- A byte size at a concrete input.
use cypherstorm.Base.{◌≡◌, refl, [], ◌∷◌, some, Bytes, codes, same}
use cypherstorm.Config.{trim_space, to_upper, without_unit, parse_uint32, parse_byte_size}
use cypherstorm.Config.Policy.{File, Variables, defaults, resolve, resolve-same}
use cypherstorm.Config.Sizes.{IsSize, parse_byte_size-IsSize}

abbrev text : Bytes
text = codes " 64 KiB "

parsed : parse_byte_size text ≡ some 65536
unfolding parse_byte_size trim_space to_upper without_unit parse_uint32 same
parsed = refl

-- A no-break space in front and an ideographic space behind are trimmed too.
trimmed : trim_space (194 ∷ 160 ∷ 54 ∷ 32 ∷ 227 ∷ 128 ∷ 128 ∷ []) ≡ 54 ∷ []
unfolding trim_space
trimmed = refl

parse_byte_size-IsSize_example : IsSize text 65536
parse_byte_size-IsSize_example = parse_byte_size-IsSize text 65536 parsed

abbrev no_variables : Variables
no_variables = record { profile = []; compression = []; cipher = []; verify_after = [] }

abbrev other : File
other = record defaults { default_cipher = codes "none"; default_record_size = codes "1GiB" }

resolve-same_example :
    resolve defaults no_variables (codes "fast") ≡ resolve other no_variables (codes "fast")
resolve-same_example = resolve-same defaults other no_variables (codes "fast") refl
