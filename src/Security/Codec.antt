-- ===== src/Security/Codec.antt =====
-- internal/storage/compress/compress.go: the registry. The codecs themselves are third-party.
use cypherstorm.Base.{List, [], ◌∷◌, String, str_eq, if◌then◌else◌}
use cypherstorm.Fault.{Result, ok, err, unsupported_codec}

pub data Codec : Type 0 where
  gzip zstd lz4 bzip2 lzma : Codec

unfoldable pub id : Codec → String
id gzip = "gzip"
id zstd = "zstd"
id lz4 = "lz4"
id bzip2 = "bzip2"
id lzma = "lzma"

unfoldable pub new_codec : String → Result Codec
new_codec id =
    if str_eq id "gzip"
    then ok gzip
    else if str_eq id "zstd"
    then ok zstd
    else if str_eq id "lz4"
    then ok lz4
    else if str_eq id "bzip2"
    then ok bzip2
    else if str_eq id "lzma"
    then ok lzma
    else err unsupported_codec

pub all_codecs : List Codec
all_codecs = gzip ∷ zstd ∷ lz4 ∷ bzip2 ∷ lzma ∷ []
