-- ===== src/Crest/Router/Add.antt =====
-- src/utils/crest/router.c: an addition to the tree, and the routes.
use optics.Base.{
  ℕ, ◌≡◌, ◌⊎◌, inl, inr, refl, sym, ap, subst, List, [], ◌∷◌, Bool, true, false, ◌&&◌, Option, none,
  some, Text, str_eq, str_eq_refl, str_eq_eq, if◌then◌else◌, All, Bool-cases, Option-cases,
  some_inj,
}
use optics.Crest.Tokens.{TokenType, token_type}
use optics.Crest.Router.{
  Router, router, Wildcards, no_wildcards, wildcards, Entries, end, entry, empty, add_entry,
  router_add, find_entry, or_else, router_route,
}

-- What an addition under a token does to the entries: it enters the entry of the token, or a new one
-- with an empty router.
record Entered (add : Router → Option Router) (head : Text) (es es' : Entries) : Type 0 where
  sub : Router
  sub' : Router
  ran : add sub ≡ some sub'
  after : find_entry head es' ≡ some sub'
  before : (find_entry head es ≡ some sub) ⊎ ((find_entry head es ≡ none) × (sub ≡ empty))
  others : (other : Text) → str_eq head other ≡ false → find_entry other es' ≡ find_entry other es

add_entry-Entered :
    (add : Router → Option Router) (head : Text) (es : Entries) {es' : Entries}
    → add_entry add head es ≡ some es'
    → Entered add head es es'
unfolding add_entry find_entry
add_entry-Entered add head end {es'} run = elim (Option-cases (add empty)) [
  | inl refused ↦ let bad : none ≡ some es' = rw (refused, add_entry) at run in cc
  | inr (new, e) ↦
      let is = some_inj (rw (e, add_entry) at run) in
      rw (sym is) (record {
        sub = empty;
        sub' = new;
        ran = e;
        after = rw (str_eq_refl head) refl;
        before = inr (refl, refl);
        others = λ other ne. rw ne refl;
      })
]
add_entry-Entered add head (entry value sub rest) {es'} run =
    elim (Bool-cases (str_eq value head)) [
      | inl here ↦ elim (Option-cases (add sub)) [
        | inl refused ↦ let bad : none ≡ some es' = rw (here, refused, add_entry) at run in cc
        | inr (new, e) ↦
            let is = some_inj (rw (here, e, add_entry) at run) in
            let v : value ≡ head = str_eq_eq value head here in
            rw (sym is) (record {
              sub = sub;
              sub' = new;
              ran = e;
              after = rw here refl;
              before = inl (rw here refl);
              others = λ other ne. let far : str_eq value other ≡ false = rw v ne in rw far refl;
            })
      ]
      | inr there ↦ elim (Option-cases (add_entry add head rest)) [
        | inl refused ↦ let bad : none ≡ some es' = rw (there, refused, add_entry) at run in cc
        | inr (later, e) ↦
            let is = some_inj (rw (there, e, add_entry) at run) in
            let i = add_entry-Entered add head rest e in
            rw (sym is) (record {
              sub = i.sub;
              sub' = i.sub';
              ran = i.ran;
              after = rw there i.after;
              before = rw there i.before;
              others = λ other ne.
                  ap (λ z. if str_eq value other then some sub else z) (i.others other ne);
            })
      ]
    ]

route-empty : (path : List Text) → router_route empty path ≡ none
unfolding router_route find_entry
route-empty [] = refl
route-empty (head ∷ tail) = refl

-- two paths of the same tokens
unfoldable pub same_path : List Text → List Text → Bool
same_path [] [] = true
same_path [] (y ∷ ys) = false
same_path (x ∷ xs) [] = false
same_path (x ∷ xs) (y ∷ ys) = str_eq x y && same_path xs ys

set_exact :
    (star : Option ℕ) (res : ℕ) (wild : Wildcards) (consts : Entries) (query : List Text)
    → router_route (router star (some res) wild consts) query
      ≡ (if same_path [] query then some res else router_route (router star none wild consts) query)
unfolding router_route same_path
set_exact star res wild consts [] = refl
set_exact star res wild consts (head ∷ tail) = refl

-- the routes through the entry that an addition enters, by those of its router
through :
    (star exact : Option ℕ) (wild : Wildcards) {add : Router → Option Router} (head : Text)
    (tail : List Text) (res : ℕ) {es es' : Entries} (i : Entered add head es es')
    → ((q : List Text)
        → router_route i.sub' q ≡ (if same_path tail q then some res else router_route i.sub q))
    → (query : List Text)
    → router_route (router star exact wild es') query ≡ (
        if same_path (head ∷ tail) query
        then some res
        else router_route (router star exact wild es) query)
unfolding router_route same_path
through star exact wild head tail res i deeper [] = refl
through star exact wild head tail res {es} {es'} i deeper (h ∷ t) =
    elim (Bool-cases (str_eq head h)) [
      | inr far ↦ rw (far, i.others h far) refl
      | inl here ↦
          let same : h ≡ head = sym (str_eq_eq head h here) in
          let old : (elim (find_entry head es) as (λ _. Option ℕ) [
            | none ↦ none
            | some sub ↦ router_route sub t
          ])
              ≡ router_route i.sub t =
            elim i.before [
              | inl found ↦ rw found refl
              | inr (new, blank) ↦ rw (new, blank) (sym (route-empty t))
            ] in
          let fallback : Option ℕ =
            or_else
              (elim wild as (λ _. Option ℕ) [
                | no_wildcards ↦ none
                | wildcards sub ↦ router_route sub t
              ])
              star in
          subst
            (λ z. router_route (router star exact wild es') (z ∷ t) ≡ (
              if same_path (head ∷ tail) (z ∷ t)
              then some res
              else router_route (router star exact wild es) (z ∷ t)))
            (sym same)
            (elim (Bool-cases (same_path tail t)) [
              | inl equal ↦ rw (i.after, str_eq_refl head, deeper t, equal) refl
              | inr other ↦
                  rw (i.after, str_eq_refl head, deeper t, other)
                    (ap (λ z. or_else z fallback) (sym old))
            ])
    ]

-- After the addition of a path of constant tokens that succeeds, that path is routed to its
-- resource, whatever stars and wildcards there are, and every other path is routed as before.
pub router_route-add :
    (path : List Text) (r : Router) {r' : Router} (res : ℕ) (query : List Text)
    → All (λ t. token_type t ≡ TokenType.const) path
    → router_add r path res ≡ some r'
    → router_route r' query ≡ (if same_path path query then some res else router_route r query)
unfolding router_add router_route same_path
router_route-add [] (router star (some old) wild consts) {r'} res query plain run =
    let bad : none ≡ some r' = run in cc
router_route-add [] (router star none wild consts) {r'} res query plain run =
    rw (sym (some_inj run)) (set_exact star res wild consts query)
router_route-add (head ∷ tail) (router star exact wild consts) {r'} res query (plain, rest) run =
    let deeper = λ (sub : Router). router_add sub tail res in
    elim (Option-cases (add_entry deeper head consts)) [
      | inl refused ↦ let bad : none ≡ some r' = rw (plain, refused, router_add) at run in cc
      | inr (consts', e) ↦
          let i = add_entry-Entered deeper head consts e in
          rw (sym (some_inj (rw (plain, e, router_add) at run))) (
            through star exact wild head tail res i
              (λ q. router_route-add tail i.sub res q rest i.ran) query)
    ]
