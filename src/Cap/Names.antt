-- ===== src/Cap/Names.antt =====
-- The names of actions: `capFindAction` and `capCanonicalAction` of de_databus/cap_schema.cpp agree.
use droneengage_common.Common.{
  ◌≡◌, refl, Option, none, some, String, [], ◌∷◌, arith, eq_iff, Option-cases, inl, inr,
}
use droneengage_common.Common.Assoc.{Assoc, lookup, contains}
use droneengage_common.Common.Float.{FloatOps}
use droneengage_common.Json.{Json}
use droneengage_common.Cap.Accepted.{IsDistinct}
use droneengage_common.Cap.Action.{
  text_or, actions_of, by_alias, second_of, find_action, canonical_action,
}

module _ {F : Type 0} ⦃o : FloatOps F⦄ where
  -- The key that an alias leads to is in the table, with the action found.
  alias_listed :
      (act k : String) (a : Json F) (actions : Assoc (Json F))
      → IsDistinct actions
      → by_alias act actions ≡ some (some (k, a))
      → lookup k actions ≡ some a
  unfolding by_alias lookup contains
  alias_listed act k a [] d h = absurd (cc h)
  alias_listed act k a ((j, b) ∷ actions) d h =
      elim (Option-cases (text_or "deprecated_alias" "" b)) [
        | inl e ↦ ground (arith, d.0, e, eq_iff j k, alias_listed act k a actions d.1)
        | inr (t, e) ↦ ground (arith, d.0, e, eq_iff j k, alias_listed act k a actions d.1)
      ]

  -- Where an action is found, its current name is the key of that action; the current name finds the
  -- same action and is its own current name.
  pub record IsNamed (advert : Json F) (actions : Assoc (Json F)) (act : String) (a : Json F)
      : Type 0 where
    pub name : String
    pub current : canonical_action advert act ≡ some name
    pub listed : lookup name actions ≡ some a
    pub finds : find_action advert name ≡ some (some a)
    pub stable : canonical_action advert name ≡ some name

  -- A listed name is its own current name.
  listed_IsNamed :
      (advert : Json F) (actions : Assoc (Json F)) (act name : String) (a : Json F)
      → actions_of advert ≡ some actions
      → lookup name actions ≡ some a
      → canonical_action advert act ≡ some name
      → IsNamed advert actions act a
  unfolding find_action canonical_action
  listed_IsNamed advert actions act name a e l c = record {
    name = name;
    current = c;
    listed = l;
    finds = rw (e, find_action, l) refl;
    stable = rw (e, canonical_action, l) refl;
  }

  alias_IsNamed :
      (advert : Json F) (actions : Assoc (Json F)) (act : String) (a : Json F)
      → actions_of advert ≡ some actions
      → IsDistinct actions
      → lookup act actions ≡ none
      → (found : Option (Option (String × Json F))) → by_alias act actions ≡ found
      → second_of found ≡ some (some a)
      → IsNamed advert actions act a
  unfolding canonical_action
  alias_IsNamed advert actions act a e d l none g h = absurd (cc h)
  alias_IsNamed advert actions act a e d l (some none) g h = absurd (cc h)
  alias_IsNamed advert actions act a e d l (some (some (k, b))) g h =
      listed_IsNamed advert actions act k a e (alias_listed act k a actions d (cc (g, h)))
        (rw (e, canonical_action, l, g) refl)

  find_listed :
      (advert : Json F) (actions : Assoc (Json F)) (act : String) (b : Json F)
      → actions_of advert ≡ some actions
      → lookup act actions ≡ some b
      → (find_action advert act ≡ some (some b)) × (canonical_action advert act ≡ some act)
  unfolding find_action canonical_action
  find_listed advert actions act b e l =
      (rw (e, find_action, l) refl, rw (e, canonical_action, l) refl)

  find_aliased :
      (advert : Json F) (actions : Assoc (Json F)) (act : String)
      → actions_of advert ≡ some actions
      → lookup act actions ≡ none
      → find_action advert act ≡ second_of (by_alias act actions)
  unfolding find_action
  find_aliased advert actions act e l = rw (e, find_action, l) refl

  -- `capFindAction` and `capCanonicalAction` agree: where an action is found under a name or under
  -- its old name, the current name is the key that holds it. The keys of the actions are distinct.
  pub find_action-canonical_action :
      (advert : Json F) (actions : Assoc (Json F)) (act : String) (a : Json F)
      → actions_of advert ≡ some actions
      → IsDistinct actions
      → find_action advert act ≡ some (some a)
      → IsNamed advert actions act a
  find_action-canonical_action advert actions act a e d h =
      elim (Option-cases (lookup act actions)) [
        | inr (b, l) ↦
            let both = find_listed advert actions act b e l in
            listed_IsNamed advert actions act act a e (cc (l, both.0, h)) both.1
        | inl l ↦
            alias_IsNamed advert actions act a e d l (by_alias act actions) refl
              (cc (h, find_aliased advert actions act e l))
      ]
