-- ===== src/Boost.antt =====
-- What the program relies on of the boost string algorithms, which are not part of it. The model
-- takes each as an argument; the records say what their documentation promises.
pub mod Model
use csi_http.Base.{ℕ, ◌≡◌, ◌≢◌, ◌↔◌, Bool, true, List, [], ◌∷◌, ◌++◌, map, Bytes, All}

abbrev pub slash : ℕ
slash = b'/'

abbrev pub NoSlash : Bytes → Type 0
NoSlash = All λ c. c ≢ slash

-- The parts with a slash between each two.
abbrev pub join : List Bytes → Bytes
join [] = []
join (x ∷ []) = x
join (x ∷ y ∷ xs) = x ++ slash ∷ join (y ∷ xs)

-- `boost::split(parts, str, boost::is_any_of("/"))`: a text is cut at each slash and nowhere else.
pub record IsSplit (split : Bytes → List Bytes) : Type 0 where
  pub join-split : (s : Bytes) → join (split s) ≡ s
  pub split-NoSlash : (s : Bytes) → All NoSlash (split s)
  pub split_whole : (s : Bytes) → NoSlash s → split s ≡ s ∷ []
