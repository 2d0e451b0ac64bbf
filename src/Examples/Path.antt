-- ===== src/Examples/Path.antt =====
-- A path with a directory.
use tarfs.Base.{◌≢◌, [], ◌∷◌, All}
use tarfs.Meta.{Bytes}
use tarfs.Mkfs.{get_fname}
use tarfs.Mkfs.Path.{IsSplit, get_fname-IsSplit}

abbrev two_names : Bytes
two_names = b'd' ∷ b'/' ∷ b'f' ∷ []

get_fname-IsSplit_example :
    All (λ c. c ≢ b'/') (get_fname two_names).fname × IsSplit two_names (get_fname two_names)
get_fname-IsSplit_example = get_fname-IsSplit two_names
