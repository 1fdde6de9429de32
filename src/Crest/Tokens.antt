-- ===== src/Crest/Tokens.antt =====
-- src/utils/crest/path.c: the tokens of a path.
use optics.Base.{ℕ, List, [], ◌∷◌, Bool, true, false, Text, take, ◌==◌, if◌then◌else◌}

abbrev pub max_path_len : ℕ
max_path_len = 1024

-- the rest of a token, up to a slash or a question mark
unfoldable pub token_rest : Text → Text
token_rest [] = []
token_rest (c ∷ cs) =
    let rest = token_rest cs in if c == b'/' then [] else if c == b'?' then [] else c ∷ rest

-- the loop of `path_new`; the flag says that the byte before is in a token
unfoldable pub tokens_from : Bool → Text → List Text
unfolding token_rest
tokens_from inside [] = []
tokens_from inside (c ∷ cs) =
    let next = tokens_from true cs in
    let skipped = tokens_from false cs in
    if c == b'?'
    then []
    else if c == b'/'
    then skipped
    else if inside
    then next
    else (c ∷ token_rest cs) ∷ next

-- `path_new`; `path_head` and `path_tail` are those of the list
unfoldable pub path_new : Text → List Text
unfolding tokens_from
path_new raw = tokens_from false (take max_path_len raw)

-- `enum token_type`
pub data TokenType : Type 0 where
  star : TokenType
  wildcard : TokenType
  const : TokenType

-- `path_token_type`
unfoldable pub token_type : Text → TokenType
token_type [] = const
token_type (c ∷ cs) = if c == b'*' then star else if c == b':' then wildcard else const
