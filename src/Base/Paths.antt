-- ===== src/Base/Paths.antt =====
-- Python's `PurePosixPath` of a text.
use mathlib.Core.Bool.{Bool, false, ◌&&◌, not}
use mathlib.Core.List.{List, [], ◌∷◌, ◌++◌}
use ro_repo.Base.Tests.{◌==◌, if◌then◌else◌}
use ro_repo.Base.Lists.{is_empty, keep}
use ro_repo.Base.Text.{Text, codes, text_eq}

-- `text.split("/")`
abbrev pub split_slash : Text → List Text
split_slash [] = [] ∷ []
split_slash (c ∷ cs) = elim (split_slash cs) [
  | [] ↦ (c ∷ []) ∷ []
  | part ∷ parts ↦ if c == b'/' then [] ∷ part ∷ parts else (c ∷ part) ∷ parts
]

abbrev is_part : Text → Bool
is_part t = not (is_empty t) && not (text_eq t (codes "."))

-- `PurePosixPath(path).parts` of a relative path
abbrev pub parts_of : Text → List Text
parts_of path = keep is_part (split_slash path)

-- `is_absolute`
abbrev pub starts_with_slash : Text → Bool
starts_with_slash [] = false
starts_with_slash (c ∷ cs) = c == b'/'

abbrev join_slash : List Text → Text
join_slash [] = []
join_slash (p ∷ []) = p
join_slash (p ∷ q ∷ ps) = p ++ b'/' ∷ join_slash (q ∷ ps)

-- `as_posix` of a relative path
abbrev pub as_posix : Text → Text
as_posix path = if is_empty (parts_of path) then codes "." else join_slash (parts_of path)

abbrev last_of : Text → List Text → Text
last_of d [] = d
last_of d (p ∷ ps) = last_of p ps

-- `name`
abbrev pub name_of_path : Text → Text
name_of_path path = last_of [] (parts_of path)
