-- ===== src/Runs/Numbering.antt =====
-- background-run-registry.ts: launch ids are unique in the map.
use locus_pi.Common.{
  ℕ, ◌+◌, ◌-◌, ◌≤◌, ◌<◌, ◌≡◌, refl, sym, ap, Bool, true, false, List, [], ◌∷◌, ◌++◌, Option, none,
  some, if◌then◌else◌, keep, map, arith, inl, inr, All, All-zip, Bool-cases, Option-cases, if_intro,
  ◌∙◌,
}
use locus_pi.Common.Text.{Text, codes, decimal, decimal-injective, text_eq, text_eq_iff}
use locus_pi.Runs.Records.{
  Run, Lease, Registry, Settlement, empty, session_key, lease_key, get_session, host_abort,
  operator_stop,
}
use locus_pi.Runs.Queries.{select_run}
use locus_pi.Runs.Queries.Order.{select_run-All}
use locus_pi.Runs.Defs.{
  abort, request_stop, revoke_run, revoke_generation, start_session, new_run, start_run, launch,
  attach, update_run, with_run_id, set_run_id, follows, host_aborts, settle, settle_run, stop,
  shutdown, Event, starts_session, launches, attaches, names_run, fires_host_signal, settles, stops,
  shuts_down, step, run,
}

abbrev launch_text : ℕ → Text
launch_text n = codes "pending-" ++ decimal n

-- The runs stand in the order of their numbers, and each launch id is that of its number.
abbrev pub Numbered : ℕ → ℕ → List Run → Type 0
Numbered low high [] = low ≤ high
Numbered low high (r ∷ rs) =
    (low < r.started_order)
    × (r.launch_id ≡ launch_text (r.started_order - 1))
    × Numbered r.started_order high rs

abbrev pub WellNumbered : Registry → Type 0
WellNumbered state = Numbered 0 state.next_run state.runs

Numbered-mono : (l m h : ℕ) (rs : List Run) → l ≤ m → Numbered m h rs → Numbered l h rs
Numbered-mono l m h [] le v = omega arith
Numbered-mono l m h (r ∷ rs) le v = (omega arith, v.1, v.2)

Numbered-concat :
    (l h : ℕ) (rs : List Run) (r : Run)
    → Numbered l h rs
    → r.started_order ≡ h + 1
    → r.launch_id ≡ launch_text h
    → Numbered l (h + 1) (rs ++ r ∷ [])
Numbered-concat l h [] r v e f = (omega arith, f ∙ ap launch_text (omega arith), omega arith)
Numbered-concat l h (q ∷ rs) r v e f = (v.0, v.1, Numbered-concat q.started_order h rs r v.2 e f)

Numbered-keep :
    (l h : ℕ) (p : Run → Bool) (rs : List Run) → Numbered l h rs → Numbered l h (keep p rs)
Numbered-keep l h p [] v = v
Numbered-keep l h p (r ∷ rs) v =
    let rest = Numbered-keep r.started_order h p rs v.2 in
    if_intro (Numbered l h) (p r) (λ _. (v.0, v.1, rest))
      (λ _. Numbered-mono l r.started_order h (keep p rs) (omega arith) rest)

-- A change that keeps the number and the launch id.
Numbered-map :
    (f : Run → Run)
    → ((r : Run) → ((f r).started_order ≡ r.started_order) × ((f r).launch_id ≡ r.launch_id))
    → (l h : ℕ) (rs : List Run) → Numbered l h rs
    → Numbered l h (map f rs)
Numbered-map f same l h [] v = v
Numbered-map f same l h (r ∷ rs) v =
    let e = (same r).0 in
    (rw e v.0, rw (e, (same r).1) v.1, rw e (Numbered-map f same r.started_order h rs v.2))

-- Runs with one launch id are one run, so they are in one state.
abbrev pub Twins : List Run → Run → Type 0
Twins rs r = All (λ q. text_eq q.launch_id r.launch_id ≡ true → q.state ≡ r.state) rs

launch_text-injective : (m n : ℕ) → launch_text m ≡ launch_text n → m ≡ n
launch_text-injective m n e = decimal-injective m n (cc)

-- A smaller number's launch id does not occur.
later_differ :
    (t low h : ℕ) (rs : List Run)
    → 0 < t
    → t ≤ low
    → Numbered low h rs
    → All (λ q. text_eq q.launch_id (launch_text (t - 1)) ≡ false) rs
later_differ t low h [] pos le v = tt
later_differ t low h (q ∷ rs) pos le v = (
  elim (Bool-cases (text_eq q.launch_id (launch_text (t - 1)))) [
    | inr differ ↦ differ
    | inl same ↦ absurd (
        omega (
          arith,
          launch_text-injective (q.started_order - 1) (t - 1) (sym v.1 ∙ (text_eq_iff _ _).0 same),
        ))
  ],
  later_differ t q.started_order h rs pos (omega arith) v.2,
)

pub Numbered-Twins : (low h : ℕ) (rs : List Run) → Numbered low h rs → All (Twins rs) rs
Numbered-Twins low h [] v = tt
Numbered-Twins low h (r ∷ rs) v =
    let others : All (λ q. text_eq q.launch_id r.launch_id ≡ false) rs =
      rw v.1 (later_differ r.started_order r.started_order h rs (omega arith) (omega arith) v.2) in
    (
      ((λ _. refl), All-zip _ _ _ (λ q differ _ same. absurd (cc)) rs others others),
      All-zip _ _ _
          (λ q differ twins. (
            (λ same. absurd (
                ground (
                  arith,
                  text_eq_iff q.launch_id r.launch_id,
                  text_eq_iff r.launch_id q.launch_id,
                ))),
            twins,
          ))
          rs others (Numbered-Twins r.started_order h rs v.2),
    )

-- What `select_run` finds is a run of the map.
pub select_run-Twins :
    (state : Registry) (l : Lease) (t : Text) (r : Run)
    → WellNumbered state
    → select_run state l t ≡ some r
    → Twins state.runs r
select_run-Twins state l t r v e =
    select_run-All (Twins state.runs) state l t r (Numbered-Twins 0 state.next_run state.runs v) e

revoke_generation-WellNumbered :
    (state : Registry) (k : Text) (g : ℕ)
    → WellNumbered state
    → WellNumbered (revoke_generation state k g)
unfolding revoke_generation
revoke_generation-WellNumbered state k g v =
    Numbered-map (revoke_run k g) (λ r. ground arith) 0 state.next_run state.runs v

start_session-WellNumbered :
    (state : Registry) (a b : Text) → WellNumbered state → WellNumbered (start_session state a b).0
unfolding start_session
start_session-WellNumbered state a b v =
    elim (Option-cases (get_session (session_key a b) state.sessions)) [
      | inl first ↦ rw (first, start_session) v
      | inr (old, found) ↦
          rw (found, start_session)
            (if_intro WellNumbered old.revoked {x = state} (λ _. v)
              (λ _. revoke_generation-WellNumbered state (session_key a b) old.generation v))
    ]

start_run-WellNumbered :
    (state : Registry) (l : Lease) (exclusive : Bool) (g : Option ℕ) (fired : List ℕ)
    → WellNumbered state
    → WellNumbered (start_run state l exclusive g fired).0
unfolding start_run
start_run-WellNumbered state l exclusive g fired v =
    Numbered-concat 0 state.next_run state.runs (new_run state l exclusive g fired) v refl refl

launch-WellNumbered :
    (state : Registry) (l : Lease) → WellNumbered state → WellNumbered (launch state l).0
unfolding launch
launch-WellNumbered state l v = ground (arith, start_run-WellNumbered state l true none [] v)

attach-WellNumbered :
    (state : Registry) (l : Lease) (g : ℕ) (fired : List ℕ)
    → WellNumbered state
    → WellNumbered (attach state l g fired).0
unfolding attach
attach-WellNumbered state l g fired v =
    ground (arith, start_run-WellNumbered state l false (some g) fired v)

pub update_run-WellNumbered :
    (state : Registry) (i : Text) (f : Run → Run)
    → ((r : Run) → ((f r).started_order ≡ r.started_order) × ((f r).launch_id ≡ r.launch_id))
    → WellNumbered state
    → Numbered 0 state.next_run (update_run i f state.runs)
update_run-WellNumbered state i f same v =
    Numbered-map (λ r. if text_eq r.launch_id i then f r else r) (λ r. ground (arith, same r)) 0
      state.next_run state.runs v

settle_run-WellNumbered :
    (state : Registry) (i : Text) (s : Settlement)
    → WellNumbered state
    → WellNumbered (settle_run state i s)
unfolding settle_run
settle_run-WellNumbered state i s v =
    Numbered-keep 0 state.next_run _ (update_run i (settle s) state.runs)
      (update_run-WellNumbered state i (settle s) (λ r. (refl, refl)) v)

stop-WellNumbered :
    (state : Registry) (l : Lease) (t : Text) → WellNumbered state → WellNumbered (stop state l t).0
unfolding stop
stop-WellNumbered state l t v = elim (Option-cases (select_run state l t)) [
  | inl missing ↦ ground arith
  | inr (r, found) ↦ ground (
    arith,
    update_run-WellNumbered state r.launch_id (request_stop operator_stop) (λ q. (refl, refl)) v,
  )
]

pub step-WellNumbered :
    (state : Registry) (e : Event) → WellNumbered state → WellNumbered (step state e)
unfolding step
step-WellNumbered state (starts_session a b) v = start_session-WellNumbered state a b v
step-WellNumbered state (launches l) v = launch-WellNumbered state l v
step-WellNumbered state (attaches l g fired) v = attach-WellNumbered state l g fired v
step-WellNumbered state (names_run i t) v =
    unfold set_run_id in
    ground (arith, update_run-WellNumbered state i (with_run_id t) (λ r. (refl, refl)) v)
step-WellNumbered state (fires_host_signal g) v =
    unfold host_aborts in
    Numbered-map (λ r. if follows g r.host_signal then abort (host_abort g) r else r)
      (λ r. ground arith) 0 state.next_run state.runs v
step-WellNumbered state (settles i s) v = settle_run-WellNumbered state i s v
step-WellNumbered state (stops l t) v = stop-WellNumbered state l t v
step-WellNumbered state (shuts_down l) v =
    unfold shutdown in
    ground (arith, revoke_generation-WellNumbered state (lease_key l) l.generation v)

pub empty-WellNumbered : WellNumbered empty
unfolding empty
empty-WellNumbered = omega arith

pub run-WellNumbered :
    (state : Registry) (es : List Event) → WellNumbered state → WellNumbered (run state es)
unfolding run
run-WellNumbered state [] v = v
run-WellNumbered state (e ∷ es) v = run-WellNumbered (step state e) es (step-WellNumbered state e v)
