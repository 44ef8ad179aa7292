-- ===== src/Base/Path.antt =====
-- The functions of Go's `path` package that the code calls, over '/'-separated bytes.
use incusos_builder.Base.{ℕ, Bool, ◌||◌, List, [], ◌∷◌, if◌then◌else◌}
use mathlib.Core.List.{foldl, reverse}
use incusos_builder.Base.Text.{Text, text_eq, has_prefix, split, join}

-- '/'
abbrev pub slash : ℕ
slash = 47

abbrev pub dot_dot : Text
dot_dot = b'.' ∷ b'.' ∷ []

-- `..`: drops the last element, if there is one to drop.
abbrev pub parent_of : Bool → List Text → List Text
parent_of rooted [] = if rooted then [] else dot_dot ∷ []
parent_of rooted (x ∷ stack) = if text_eq x dot_dot then dot_dot ∷ x ∷ stack else stack

-- One element of the path, on the elements kept so far, last first.
unfoldable pub clean_step : Bool → List Text → Text → List Text
clean_step rooted stack seg =
    if text_eq seg [] || text_eq seg (b'.' ∷ [])
    then stack
    else if text_eq seg dot_dot
    then parent_of rooted stack
    else seg ∷ stack

-- `path.Clean`.
unfoldable pub clean : Text → Text
clean p =
    if text_eq p []
    then b'.' ∷ []
    else let rooted = has_prefix p (slash ∷ []) in
      let out = join (slash ∷ []) (reverse (foldl (clean_step rooted) [] (split slash p))) in
      if rooted then slash ∷ out else if text_eq out [] then b'.' ∷ [] else out

-- The last element that is not empty, `last` if there is none.
unfoldable pub last_element : Text → List Text → Text
last_element last [] = last
last_element last (x ∷ xs) = last_element (if text_eq x [] then last else x) xs

-- `path.Base`: the last element, with trailing slashes dropped; "." for "", "/" for slashes only.
unfoldable pub base : Text → Text
base p = if text_eq p [] then b'.' ∷ [] else last_element (slash ∷ []) (split slash p)
