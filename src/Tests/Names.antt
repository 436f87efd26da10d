-- ===== src/Tests/Names.antt =====
-- The registry of agents' names at concrete calls.
use locus_pi.Common.{◌≡◌, refl, List, [], ◌∷◌, ◌++◌, none, some}
use locus_pi.Common.Text.{codes, decimal}
use locus_pi.Common.Map.{lookup}
use locus_pi.Names
use locus_pi.Names.{
  fnv1a, petname, Registry, new_registry, assign, adopt, release, hold, free_name, Event, step, run,
}
use locus_pi.Names.Refinement.{run-new-Follows, Follows, names_of}

names : Unit {0}
unfolding fnv1a petname assign adopt release hold free_name step run
names = tt

-- The published test vectors of the hash
hash_vectors :
    (fnv1a [] ≡ 0x811c9dc5)
    × (fnv1a (codes "a") ≡ 0xe40c292c)
    × (fnv1a (codes "foobar") ≡ 0xbf9cf968)
unfolding names decimal
hash_vectors = (refl, refl, refl)

-- A child shares the name of its parent, and both give it back.
abbrev calls : List Event
calls =
    Names.assigns (codes "a")
    ∷ Names.adopts (codes "b") (petname (codes "a"))
    ∷ Names.releases (codes "a")
    ∷ Names.assigns (codes "a")
    ∷ []

-- The name is the child's still, so the parent that comes back takes another one.
shared_name :
    (lookup (run new_registry calls).by_id (codes "b") ≡ some (petname (codes "a")))
    × (lookup (run new_registry calls).by_id (codes "a") ≡ some (petname (codes "a") ++ codes "-2"))
unfolding names decimal
shared_name = (refl, refl)

run-new-Follows_example : Follows (λ _. none) calls (names_of (run new_registry calls))
run-new-Follows_example = run-new-Follows calls
