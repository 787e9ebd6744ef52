-- ===== src/Uri.antt =====
-- csi_http/utils/uri_pattern.cpp and uri_pattern.h: the patterns by which a server finds the
-- handler of a request. A path is the list of its parts between slashes.
pub mod Matching
pub mod Literal
mod Tests
use csi_http.Base.{
  ℕ, zero, suc, ◌-◌, Bool, true, false, not, ◌&&◌, Option, none, some, List, [], ◌∷◌, Bytes, codes,
  text_eq, length, get_elem?, leb, ltb, ◌==◌, if◌then◌else◌,
}

pub record UriPattern : Type 0 where
  pub parts : List Bytes
  pub catch_all : Bool

abbrev pub hash : Bytes
hash = codes "#"

abbrev pub plus : Bytes
plus = codes "+"

-- `_parts.pop_back()`.
abbrev pub pop_back : List Bytes → List Bytes
pop_back [] = []
pop_back (x ∷ []) = []
pop_back (x ∷ y ∷ xs) = x ∷ pop_back (y ∷ xs)

-- What an optional part is compared with: no part equals nothing.
abbrev is_text : Option Bytes → Bytes → Bool
is_text none t = false
is_text (some s) t = text_eq s t

-- The constructor after the split.
unfoldable pub of_parts : List Bytes → UriPattern
of_parts parts =
    if length parts == 0
    then record { parts = parts; catch_all = false }
    else if is_text (get_elem? parts (length parts - 1)) hash
    then record { parts = pop_back parts; catch_all = true }
    else record { parts = parts; catch_all = false }

-- The constructor, over `boost::split` at slashes.
unfoldable pub uri_pattern : (Bytes → List Bytes) → Bytes → UriPattern
uri_pattern split str = of_parts (split str)

-- The loop over the pattern's parts. `none` is a read past the end of the other vector.
unfoldable pub compare_parts : List Bytes → List Bytes → Option Bool
compare_parts [] parts = some true
compare_parts (p ∷ ps) [] = none
compare_parts (p ∷ ps) (x ∷ xs) =
    let rest = compare_parts ps xs in
    if not (text_eq p plus) && not (text_eq p x) then some false else rest

unfoldable pub match : UriPattern → List Bytes → Option Bool
match pattern parts =
    let n = length pattern.parts in
    let m = length parts in
    if ltb m n
    then some false
    else if not pattern.catch_all && not (n == m)
    then some false
    else if pattern.catch_all && leb m n
    then some false
    else compare_parts pattern.parts parts
