-- ===== src/Crest/Request.antt =====
-- src/utils/crest/req.c: a request, as the resources read it.
use optics.Base.{
  ℕ, ◌+◌, ◌-◌, Bool, List, [], ◌∷◌, Option, none, some, Text, str_eq, take, length, get_elem?, ltb,
  if◌then◌else◌,
}
use optics.Crest.Tokens.{path_new}

-- `enum crest_method`
pub data Method : Type 0 where
  get put post delete unsupported : Method

-- `struct crest_req`. The connection is left out; `content` is `data`, empty for NULL, and its
-- length `data_len`; `path` is `none` for NULL.
pub record Request : Type 0 where
  pub url : Text
  pub method : Text
  pub content : List ℕ
  pub pos : ℕ
  pub path : Option (List Text)

-- `is_method`: `strncmp` looks at the bytes of the name and at the nil byte behind them.
is_method : Text → Text → Bool
is_method value name = str_eq (take (length name + 1) name) (take (length name + 1) value)

abbrev get_name : Text
get_name = b'G' ∷ b'E' ∷ b'T' ∷ []

abbrev post_name : Text
post_name = b'P' ∷ b'O' ∷ b'S' ∷ b'T' ∷ []

abbrev put_name : Text
put_name = b'P' ∷ b'U' ∷ b'T' ∷ []

abbrev delete_name : Text
delete_name = b'D' ∷ b'E' ∷ b'L' ∷ b'E' ∷ b'T' ∷ b'E' ∷ []

-- `crest_req_get_method`
unfoldable pub get_method : Request → Method
unfolding is_method
get_method req =
    if is_method req.method get_name
    then get
    else if is_method req.method post_name
    then post
    else if is_method req.method put_name
    then put
    else if is_method req.method delete_name
    then delete
    else unsupported

-- `crest_req_get_path`: the tokens are made at the first call and kept.
unfoldable pub get_path : Request → Request × List Text
get_path req = elim req.path [
  | some path ↦ (req, path)
  | none ↦ let path = path_new req.url in (record req { path = some path }, path)
]

-- `crest_req_get_path_tokens`
unfoldable pub get_path_tokens : Request → Request × ℕ
unfolding get_path
get_path_tokens req = let (req', path) = get_path req in (req', length path)

-- `crest_req_get_path_token` and `path_token`; `none` for NULL
unfoldable pub get_path_token : Request → ℕ → Request × Option Text
unfolding get_path
get_path_token req i =
    let (req', path) = get_path req in
    (req', if ltb i (length path) then get_elem? path i else none)

-- `crest_req_read`: the bytes that it copies. The code never moves `data_pos`.
unfoldable pub read : Request → ℕ → List ℕ
read req max =
    let leftover = length req.content - req.pos in
    take (if ltb leftover max then leftover else max) req.content
