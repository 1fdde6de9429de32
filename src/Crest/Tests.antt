-- ===== src/Crest/Tests.antt =====
-- Two routes, and the tokens of a request.
mod Requests
use optics.Base.{◌≡◌, refl, [], ◌∷◌, none, some, Text, str_eq, if◌then◌else◌, All}
use optics.Crest.Tokens.{TokenType, token_type, path_new, tokens_from, token_rest}
use optics.Crest.Router.{
  Router, router, no_wildcards, end, entry, add_entry, router_add, router_route,
}
use optics.Crest.Router.Add.{same_path, router_route-add}

abbrev metrics : Text
metrics = b'm' ∷ []

abbrev json : Text
json = b'j' ∷ []

abbrev text : Text
text = b't' ∷ []

-- "/m/j" is routed to 1, and every path below "/m" to 9
abbrev one : Router
one = router none none no_wildcards (
    entry metrics
      (router (some 9) none no_wildcards (entry json (router none (some 1) no_wildcards end) end))
      end)

abbrev two : Router
two = router none none no_wildcards (
    entry metrics
      (router (some 9) none no_wildcards (
        entry json (router none (some 1) no_wildcards end)
          (entry text (router none (some 2) no_wildcards end) end)))
      end)

add_run : router_add one (metrics ∷ text ∷ []) 2 ≡ some two
unfolding router_add add_entry token_type str_eq
add_run = refl

plain : All (λ t. token_type t ≡ TokenType.const) (metrics ∷ text ∷ [])
unfolding token_type
plain = (refl, (refl, tt))

tokens_run :
    path_new (b'/' ∷ b'm' ∷ b'/' ∷ b'/' ∷ b'j' ∷ b's' ∷ b'?' ∷ b'q' ∷ [])
    ≡ metrics ∷ (b'j' ∷ b's' ∷ []) ∷ []
unfolding path_new tokens_from token_rest
tokens_run = refl

router_route-add_example : router_route two (metrics ∷ json ∷ []) ≡ (
    if same_path (metrics ∷ text ∷ []) (metrics ∷ json ∷ [])
    then some 2
    else router_route one (metrics ∷ json ∷ []))
router_route-add_example =
    router_route-add (metrics ∷ text ∷ []) one 2 (metrics ∷ json ∷ []) plain add_run
