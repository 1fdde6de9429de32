-- ===== src/Crest/Router.antt =====
-- src/utils/crest/router.c: a tree of tokens. A resource is a number.
pub mod Add
use optics.Base.{
  ℕ, List, [], ◌∷◌, Bool, true, false, Option, none, some, Text, str_eq, if◌then◌else◌,
}
use optics.Crest.Tokens.{TokenType, token_type, const, wildcard}
use optics.Crest.Tokens

mutual
  -- `struct router`, with `none` for NULL
  pub data Router : Type 0 where
    router : (star exact : Option ℕ) (wildcards : Wildcards) (consts : Entries) → Router

  pub data Wildcards : Type 0 where
    no_wildcards : Wildcards
    wildcards : Router → Wildcards

  -- the array of `struct routing_entry`
  pub data Entries : Type 0 where
    end : Entries
    entry : (value : Text) (sub : Router) (rest : Entries) → Entries

-- a zeroed router
abbrev pub empty : Router
empty = router none none no_wildcards end

-- The loop of `router_add` over the entries, and `router_append` after it: `add` is what happens to
-- the router of the entry.
unfoldable pub add_entry : (Router → Option Router) → Text → Entries → Option Entries
add_entry add head end = elim (add empty) [ none ↦ none | some sub ↦ some (entry head sub end) ]
add_entry add head (entry value sub rest) =
    let later = add_entry add head rest in
    if str_eq value head
    then elim (add sub) [ none ↦ none | some sub' ↦ some (entry value sub' rest) ]
    else elim later [ none ↦ none | some rest' ↦ some (entry value sub rest') ]

-- `router_add`; `none` where it returns false
unfoldable pub router_add : Router → List Text → ℕ → Option Router
unfolding add_entry
router_add (router star exact wild consts) [] res = elim exact [
  | none ↦ some (router star (some res) wild consts)
  | some old ↦ none
]
router_add (router star exact wild consts) (head ∷ tail) res =
    let deeper = λ (sub : Router). router_add sub tail res in
    elim (token_type head) [
      | TokenType.star ↦ elim star [
        | none ↦ some (router (some res) exact wild consts)
        | some old ↦ none
      ]
      | TokenType.wildcard ↦
          let sub : Router = elim wild [ no_wildcards ↦ empty | wildcards sub ↦ sub ] in
          elim (deeper sub) [
            | none ↦ none
            | some sub' ↦ some (router star exact (wildcards sub') consts)
          ]
      | TokenType.const ↦ elim (add_entry deeper head consts) [
        | none ↦ none
        | some consts' ↦ some (router star exact wild consts')
      ]
    ]

-- the loop of `router_route`, up to its `break`
unfoldable pub find_entry : Text → Entries → Option Router
find_entry head end = none
find_entry head (entry value sub rest) =
    let later = find_entry head rest in if str_eq value head then some sub else later

abbrev pub or_else : Option ℕ → Option ℕ → Option ℕ
or_else none o = o
or_else (some r) o = some r

-- `router_route`
unfoldable pub router_route : Router → List Text → Option ℕ
unfolding find_entry
router_route (router star exact wild consts) [] = or_else exact star
router_route (router star exact wild consts) (head ∷ tail) =
    let deeper = λ (sub : Router). router_route sub tail in
    or_else (elim (find_entry head consts) [ none ↦ none | some sub ↦ deeper sub ])
      (or_else (elim wild [ no_wildcards ↦ none | wildcards sub ↦ deeper sub ]) star)
