-- ===== src/Names/Refinement.antt =====
-- The registry of agent-names.ts as a partial function from ids to names.
use locus_pi.Common.{
  suc, ◌≡◌, ◌≢◌, refl, sym, ap, subst, ◌∙◌, inl, inr, Bool, List, [], ◌∷◌, Option, none, some,
  if◌then◌else◌, is_some, length, Option-cases, on_option, arith,
}
use locus_pi.Common.Text.{Text, text_eq, text_eq_refl}
use locus_pi.Common.Map.{
  Entries, lookup, store, discard, lookup-store, lookup-store_other, lookup-discard,
  lookup-discard_other, key-cases,
}
use locus_pi.Names.{
  Registry, new_registry, petname, free_name, hold, assign, adopt, release, Event, assigns,
  releases, adopts, resets, step, run,
}
use locus_pi.Names.Fresh.{free_name_lem}
use locus_pi.Names.Holders.{IsHeld, hold-IsHeld, new-IsHeld}
use locus_pi.Names.Releasing.{release-IsHeld}

abbrev pub Naming : Type 0
Naming = Text → Option Text

abbrev pub update : Naming → Text → Option Text → Naming
update f id v j = if text_eq id j then v else f j

abbrev pub names_of : Registry → Naming
names_of r = lookup r.by_id

abbrev pub IsFree : Naming → Text → Type 0
IsFree f name = (j : Text) → f j ≢ some name

-- What each call does to the names: a name that was given stays, a new one is free, and is the id's
-- own one when that is free.
pub data Spec (f f' : Naming) : Event → Type 0 where
  keeps : (id name : Text) → f id ≡ some name → ((j : Text) → f' j ≡ f j) → Spec f f' (assigns id)
  gives :
      (id name : Text)
      → f id ≡ none
      → IsFree f name
      → (IsFree f (petname id) → name ≡ petname id)
      → ((j : Text) → f' j ≡ update f id (some name) j)
      → Spec f f' (assigns id)
  shares :
      (id name : Text)
      → f id ≡ none
      → ((j : Text) → f' j ≡ update f id (some name) j)
      → Spec f f' (adopts id name)
  keeps_own :
      (id name own : Text)
      → f id ≡ some own
      → ((j : Text) → f' j ≡ f j)
      → Spec f f' (adopts id name)
  frees : (id : Text) → ((j : Text) → f' j ≡ update f id none j) → Spec f f' (releases id)
  forgets : ((j : Text) → f' j ≡ none) → Spec f f' resets

-- A run of calls, each as the specification has it.
pub data Follows : Naming → List Event → Naming → Type 0 where
  ended : {f : Naming} → Follows f [] f
  next :
      {f g h : Naming} {e : Event} {es : List Event}
      → Spec f g e
      → Follows g es h
      → Follows f (e ∷ es) h

store-update :
    (es : Entries Text) (id name j : Text)
    → lookup (store es id name) j ≡ update (lookup es) id (some name) j
store-update es id name j = elim (key-cases id j) [
  | inl same ↦
      subst (λ y. lookup (store es id name) y ≡ update (lookup es) id (some name) y) same
        (lookup-store es id name
          ∙ ap (λ b. if b then some name else lookup es id) (sym (text_eq_refl id)))
  | inr other ↦
      lookup-store_other es id j name other
      ∙ ap (λ b. if b then some name else lookup es j) (sym other)
]

discard-update :
    (es : Entries Text) (id j : Text) → lookup (discard es id) j ≡ update (lookup es) id none j
discard-update es id j = elim (key-cases id j) [
  | inl same ↦
      subst (λ y. lookup (discard es id) y ≡ update (lookup es) id none y) same
        (lookup-discard es id ∙ ap (λ b. if b then none else lookup es id) (sym (text_eq_refl id)))
  | inr other ↦
      lookup-discard_other es id j other ∙ ap (λ b. if b then none else lookup es j) (sym other)
]

-- A release of an id without a name changes nothing.
unnamed-update : (f : Naming) (id j : Text) → f id ≡ none → f j ≡ update f id none j
unnamed-update f id j free = elim (key-cases id j) [
  | inl same ↦
      subst (λ y. f y ≡ update f id none y) same
        (free ∙ ap (λ b. if b then none else f id) (sym (text_eq_refl id)))
  | inr other ↦ ap (λ b. if b then none else f j) (sym other)
]

module _ (r : Registry) (v : IsHeld r) where
  unheld-IsFree : (name : Text) → lookup r.holders_by_name name ≡ none → IsFree (names_of r) name
  unheld-IsFree name unheld j e = let (hs, found, member) = v.listed j name e in ground arith

  IsFree-unheld : (name : Text) → IsFree (names_of r) name → lookup r.holders_by_name name ≡ none
  IsFree-unheld name free = elim (Option-cases (lookup r.holders_by_name name)) [
    | inl unheld ↦ unheld
    | inr (hs, found) ↦
        let (h, member) = v.held name hs found in absurd (free h (v.named h name hs found member))
  ]

  abbrev chosen : Text → Text
  chosen id = free_name (suc (length r.holders_by_name)) r.holders_by_name (petname id) 0

  chosen-unheld : (id : Text) → lookup r.holders_by_name (chosen id) ≡ none
  chosen-unheld id = free_name_lem r.holders_by_name (petname id)

  chosen_own : (id : Text) → IsFree (names_of r) (petname id) → chosen id ≡ petname id
  unfolding free_name
  chosen_own id free =
      ap
        (λ o.
          if is_some o
          then free_name (length r.holders_by_name) r.holders_by_name (petname id) 1
          else petname id)
        (IsFree-unheld (petname id) free)

  -- A call keeps the maps in agreement, and is the specified one.
  Done : Event → Registry → Type 0
  Done e r' = IsHeld r' × Spec (names_of r) (names_of r') e

  assign-Spec : (id : Text) → Done (assigns id) (assign r id).0
  unfolding assign hold Done
  assign-Spec id =
      on_option {B = Registry × Text} (λ x. Done (assigns id) x.0) (lookup r.by_id id)
        (λ free. (
          hold-IsHeld r v id (chosen id) free,
          gives id (chosen id) free (unheld-IsFree (chosen id) (chosen-unheld id)) (chosen_own id)
              (store-update r.by_id id (chosen id)),
        ))
        (λ name given. (v, keeps id name given (λ j. refl)))

  adopt-Spec : (id name : Text) → Done (adopts id name) (adopt r id name).0
  unfolding adopt hold Done
  adopt-Spec id name =
      on_option {B = Registry × Text} (λ x. Done (adopts id name) x.0) (lookup r.by_id id)
        (λ free. (hold-IsHeld r v id name free, shares id name free (store-update r.by_id id name)))
        (λ own given. (v, keeps_own id name own given (λ j. refl)))

  release-Spec : (id : Text) → Done (releases id) (release r id).0
  unfolding release Done
  release-Spec id =
      on_option {B = Registry × Bool} (λ x. Done (releases id) x.0) (lookup r.by_id id)
        (λ free. (v, frees id (λ j. unnamed-update (names_of r) id j free)))
        (λ name given. (release-IsHeld r v id name given, frees id (discard-update r.by_id id)))

  step-Spec : (e : Event) → Done e (step r e)
  unfolding step Done
  step-Spec (assigns id) = assign-Spec id
  step-Spec (releases id) = release-Spec id
  step-Spec (adopts id name) = adopt-Spec id name
  step-Spec resets = (new-IsHeld, forgets (λ j. refl))

run-Follows :
    (r : Registry) (es : List Event) → IsHeld r → Follows (names_of r) es (names_of (run r es))
unfolding run Done
run-Follows r [] v = ended
run-Follows r (e ∷ es) v =
    let (w, spec) = step-Spec r v e in next spec (run-Follows (step r e) es w)

-- Over any calls on a new registry, the names of the ids are those of the specification: an id keeps
-- the name that it was given until it is released, a name that `assign` gives is the id's own one
-- when no id has that, and in any case one that no id has.
pub run-new-Follows : (es : List Event) → Follows (λ _. none) es (names_of (run new_registry es))
run-new-Follows es = run-Follows new_registry es new-IsHeld
