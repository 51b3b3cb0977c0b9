-- ===== src/Agent/Actions/Registry.antt =====
-- The registry is a map to which names are only added (`Register`, `Execute` and `Actions` of
-- internal/agent/actions.go).
use motekarindo_panel.Base.{
  ◌≡◌, refl, sym, ap, ◌∙◌, true, false, not, Option, none, some, Bool, map, List, [], ◌∷◌, any, inl,
  inr, Bool-cases, Option-cases, if◌then◌else◌,
}
use motekarindo_panel.Base.Sort.{
  text_lt, text_lt_total, Chain, any-sort_by, AreDistinct, sort_by-strict,
}
use motekarindo_panel.Base.Text.{Text, same, same_iff, is_empty}
use motekarindo_panel.Base.Error.{sentinel, note, unknown_action}
use motekarindo_panel.Base.Act.{Act, fail}
use motekarindo_panel.Agent.Payload.{ActionResult}
use motekarindo_panel.Agent.Actions.{
  Action, Handlers, handler_of, put_new, register, execute, actions,
}

-- The contract: a partial map, and the addition of a name that it does not have.
abbrev pub Lookup : Type 0 → Type 0
Lookup S = Text → Option (Text → Act S ActionResult)

abbrev pub prefer :
    {S : Type 0}
    → Option (Text → Act S ActionResult)
    → Option (Text → Act S ActionResult)
    → Option (Text → Act S ActionResult)
prefer none new = new
prefer (some old) new = some old

pub add_if_absent : {S : Type 0} → Text → Option (Text → Act S ActionResult) → Lookup S → Lookup S
add_if_absent name new lookup n = if same name n then prefer (lookup n) new else lookup n

-- A handler found is run; a name without one is the unknown action.
pub run_found : {S : Type 0} → Text → Text → Option (Text → Act S ActionResult) → Act S ActionResult
run_found n payload none = fail (note (sentinel unknown_action) n)
run_found n payload (some h) = h payload

-- What an action brings: nothing without a name.
abbrev pub offer : {S : Type 0} → Action S → Option (Text → Act S ActionResult)
offer action = if is_empty action.name then none else action.handler

module _ {S : Type 0} (quote : Text → Text) where
  handler_of-put_new :
      (name n : Text) (h : Text → Act S ActionResult) (old : Option (Text → Act S ActionResult))
      (handlers : Handlers S)
      → handler_of name handlers ≡ old
      → handler_of n (put_new quote name h old handlers).1
        ≡ add_if_absent name (some h) (λ k. handler_of k handlers) n
  unfolding handler_of add_if_absent
  handler_of-put_new name n h none handlers e = elim (Bool-cases (same name n)) [
    | inl q ↦
        let absent = ap (λ k. handler_of k handlers) (sym ((same_iff name n).0 q)) ∙ e in
        rw (q, absent) refl
    | inr q ↦ rw q refl
  ]
  handler_of-put_new name n h (some old) handlers e = elim (Bool-cases (same name n)) [
    | inl q ↦
        let present = ap (λ k. handler_of k handlers) (sym ((same_iff name n).0 q)) ∙ e in
        rw (q, present) refl
    | inr q ↦ rw q refl
  ]

  add_if_absent-nothing :
      (name n : Text) (lookup : Lookup S) → add_if_absent name none lookup n ≡ lookup n
  unfolding add_if_absent
  add_if_absent-nothing name n lookup = elim (Bool-cases (same name n)) [
    | inl q ↦ rw q (prefer_none (lookup n))
    | inr q ↦ rw q refl
  ]
    where
      prefer_none : (o : Option (Text → Act S ActionResult)) → prefer o none ≡ o
      prefer_none none = refl
      prefer_none (some h) = refl

  handler_of-register :
      (action : Action S) (handlers : Handlers S) (n : Text)
      → handler_of n (register quote action handlers).1
        ≡ add_if_absent action.name (offer action) (λ k. handler_of k handlers) n
  unfolding register
  handler_of-register action handlers n = elim (Bool-cases (is_empty action.name)) [
    | inl q ↦ rw (q, add_if_absent-nothing action.name n (λ k. handler_of k handlers)) refl
    | inr q ↦ elim (Option-cases action.handler) [
      | inl e ↦ rw (q, e, add_if_absent-nothing action.name n (λ k. handler_of k handlers)) refl
      | inr (h, e) ↦ rw (q, e) (handler_of-put_new action.name n h _ handlers refl)
    ]
  ]

  -- A registry after registrations, whatever each of them returned.
  pub registered : List (Action S) → Handlers S → Handlers S
  registered [] handlers = handlers
  registered (action ∷ rest) handlers = registered rest (register quote action handlers).1

-- The contract's map after the same.
pub added : {S : Type 0} → List (Action S) → Lookup S → Lookup S
added [] lookup = lookup
added (action ∷ rest) lookup = added rest (add_if_absent action.name (offer action) lookup)

added-same :
    {S : Type 0} (actions : List (Action S)) (f g : Lookup S)
    → ((n : Text) → f n ≡ g n)
    → (n : Text) → added actions f n ≡ added actions g n
unfolding added add_if_absent
added-same [] f g h n = h n
added-same (action ∷ rest) f g h n =
    added-same rest _ _
      (λ k. ap (λ x. if same action.name k then prefer x (offer action) else x) (h k)) n

pub is_some : {A : Type 0} → Option A → Bool
is_some none = false
is_some (some a) = true

abbrev names : {S : Type 0} → Handlers S → List Text
names handlers = map (λ entry. entry.0) handlers

-- No name is there twice.
abbrev AreOnce : {S : Type 0} → Handlers S → Type 0
AreOnce handlers = AreDistinct text_lt same text_lt_total (names handlers)

any-names :
    {S : Type 0} (n : Text) (handlers : Handlers S)
    → any (λ k. same k n) (names handlers) ≡ is_some (handler_of n handlers)
unfolding handler_of is_some
any-names n [] = refl
any-names n ((k, h) ∷ handlers) = elim (Bool-cases (same k n)) [
  | inl e ↦ rw e refl
  | inr e ↦ rw e (any-names n handlers)
]

module _ {S : Type 0} (quote : Text → Text) where
  put_new-AreOnce :
      (name : Text) (h : Text → Act S ActionResult) (old : Option (Text → Act S ActionResult))
      (handlers : Handlers S)
      → handler_of name handlers ≡ old
      → AreOnce handlers
      → AreOnce (put_new quote name h old handlers).1
  unfolding is_some
  put_new-AreOnce name h none handlers e d = (any-names name handlers ∙ ap is_some e, d)
  put_new-AreOnce name h (some old) handlers e d = d

  register-AreOnce :
      (action : Action S) (handlers : Handlers S)
      → AreOnce handlers
      → AreOnce (register quote action handlers).1
  unfolding register
  register-AreOnce action handlers d = elim (Bool-cases (is_empty action.name)) [
    | inl q ↦ rw q d
    | inr q ↦ elim (Option-cases action.handler) [
      | inl e ↦ rw (q, e) d
      | inr (h, e) ↦ rw (q, e) (put_new-AreOnce action.name h _ handlers refl d)
    ]
  ]

  registered-AreOnce :
      (list : List (Action S)) (handlers : Handlers S)
      → AreOnce handlers
      → AreOnce (registered quote list handlers)
  unfolding registered
  registered-AreOnce [] handlers d = d
  registered-AreOnce (action ∷ rest) handlers d =
      registered-AreOnce rest _ (register-AreOnce action handlers d)

  refines :
      (list : List (Action S)) (handlers : Handlers S) (n : Text)
      → handler_of n (registered quote list handlers) ≡ added list (λ k. handler_of k handlers) n
  unfolding registered added
  refines [] handlers n = refl
  refines (action ∷ rest) handlers n =
      refines rest (register quote action handlers).1 n
      ∙ added-same rest _ _ (handler_of-register quote action handlers) n

  from_empty :
      (list : List (Action S)) (n : Text)
      → handler_of n (registered quote list []) ≡ added list (λ k. none) n
  unfolding handler_of
  from_empty list n = refines list [] n

  -- Whatever actions are offered to a new registry, in any order, with or without a name or a handler,
  -- and whatever `Register` returns: `Execute` runs for a name what the map of the contract has, in
  -- which a name keeps its first handler, or fails with the unknown action; and `Actions` lists just the
  -- names that the map has, each once, in ascending order.
  pub registered-refines :
      (list : List (Action S))
      → ((n payload : Text)
          → execute (registered quote list []) n payload
            ≡ run_found n payload (added list (λ k. none) n))
        × ((n : Text)
            → any (λ k. same k n) (actions (registered quote list []))
              ≡ is_some (added list (λ k. none) n))
        × Chain text_lt (actions (registered quote list []))
  unfolding execute actions run_found
  registered-refines list = (
    λ n payload. ap (run_found n payload) (from_empty list n),
    λ n.
        any-sort_by (λ a b. not (text_lt b a)) (λ k. same k n) (names (registered quote list []))
        ∙ any-names n (registered quote list [])
        ∙ ap is_some (from_empty list n),
    sort_by-strict text_lt same text_lt_total (names (registered quote list []))
        (registered-AreOnce list [] tt),
  )
