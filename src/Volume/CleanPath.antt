-- ===== src/Volume/CleanPath.antt =====
-- Go's path.Clean and path.Join, by the components between slashes.
use mathlib.Core.List.{reverse}
use scaleway_file_storage_su.Prelude.{
  Bool, true, false, ◌||◌, List, [], ◌∷◌, ◌++◌, ◌==◌, if◌then◌else◌,
}
use scaleway_file_storage_su.Prelude.Texts.{Text, text_eq}
use scaleway_file_storage_su.Prelude.Strings.{split}

abbrev pub dot : Text
dot = b'.' ∷ []

abbrev pub dot_dot : Text
dot_dot = b'.' ∷ b'.' ∷ []

-- The components joined by slashes.
unfoldable pub join_slash : List Text → Text
join_slash [] = []
join_slash (c ∷ []) = c
join_slash (c ∷ d ∷ cs) = c ++ b'/' ∷ join_slash (d ∷ cs)

-- `..` takes the last component back, except over nothing or another `..`.
pop : Bool → List Text → List Text
unfolding text_eq
pop rooted [] = if rooted then [] else dot_dot ∷ []
pop rooted (c ∷ cs) = if text_eq c dot_dot then dot_dot ∷ c ∷ cs else cs

push : Bool → List Text → Text → List Text
unfolding pop text_eq
push rooted kept c =
    if text_eq c [] || text_eq c dot
    then kept
    else if text_eq c dot_dot
    then pop rooted kept
    else c ∷ kept

-- The components that are kept, last first.
clean_components : Bool → List Text → List Text → List Text
unfolding push
clean_components rooted kept [] = kept
clean_components rooted kept (c ∷ cs) = clean_components rooted (push rooted kept c) cs

clean_rooted : Text → Text
unfolding clean_components split join_slash
clean_rooted bs = b'/' ∷ join_slash (reverse (clean_components true [] (split b'/' bs)))

or_dot : Text → Text
or_dot [] = dot
or_dot (b ∷ bs) = b ∷ bs

clean_relative : Text → Text
unfolding clean_components split join_slash or_dot
clean_relative bs = or_dot (join_slash (reverse (clean_components false [] (split b'/' bs))))

-- path.Clean
unfoldable pub clean : Text → Text
unfolding clean_rooted clean_relative
clean [] = dot
clean (b ∷ bs) = if b == b'/' then clean_rooted bs else clean_relative (b ∷ bs)

drop_empty : List Text → List Text
drop_empty [] = []
drop_empty ([] ∷ es) = drop_empty es
drop_empty ((b ∷ bs) ∷ es) = (b ∷ bs) ∷ es

clean_joined : List Text → Text
unfolding clean join_slash
clean_joined [] = []
clean_joined (e ∷ es) = clean (join_slash (e ∷ es))

-- path.Join
unfoldable pub join : List Text → Text
unfolding drop_empty clean_joined
join elements = clean_joined (drop_empty elements)
