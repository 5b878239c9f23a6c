-- ===== src/Resolution/Sequential.antt =====
-- What a sequential dialogue can do to a plan.
use duet.Prelude.{
  true, List, [], ◌∷◌, ◌≡◌, refl, arith, ok, ◌⊎◌, inl, Result, subst, ok-injective, >>=-eq-ok,
  Bool-cases, ltb, inr, some, none,
}
use duet.Actions.{Action, is_unresolved_conflict, num_unresolved_conflicts}
use duet.Resolution.{
  settled, ended, to_local, to_remote, resolve_action, Key, settle, prompt, resolve_each,
  AllResolution, Round, Fault, Prompted, prepend, after_prompt, finish_round, resolve_sequential,
  confirm,
}

-- An action is left alone, or it was an open conflict and is now resolved to one side.
abbrev pub Evolved : Action → Action → Type 0
Evolved a b =
    (a ≡ b)
    ⊎ ((is_unresolved_conflict a ≡ true)
        × ((resolve_action a to_local ≡ ok b) ⊎ (resolve_action a to_remote ≡ ok b)))

abbrev pub EvolvedAll : List Action → List Action → Type 0
EvolvedAll [] [] = Unit
EvolvedAll [] (b ∷ bs) = ⊥
EvolvedAll (a ∷ as') [] = ⊥
EvolvedAll (a ∷ as') (b ∷ bs) = Evolved a b × EvolvedAll as' bs

EvolvedAll-refl : (l : List Action) → EvolvedAll l l
EvolvedAll-refl [] = tt
EvolvedAll-refl (a ∷ l) = (inl refl, EvolvedAll-refl l)

prompt-Evolved :
    (a : Action) (keys : List Key) {b : Action} {rest : List Key}
    → is_unresolved_conflict a ≡ true
    → prompt a keys ≡ ok (settled b rest)
    → Evolved a b
unfolding prompt settle
prompt-Evolved a [] u h = cc
prompt-Evolved a (k ∷ keys) {b} {rest} u h =
    ground (arith, prompt-Evolved a keys {b = b} {rest = rest})

prepend-Evolved :
    (a b : Action) (l : List Action) (r r' : Round)
    → Evolved a b
    → EvolvedAll l r.1
    → ◌≡◌ {A = Result Fault Round} (ok (prepend b r)) (ok r')
    → EvolvedAll (a ∷ l) r'.1
prepend-Evolved a b l r r' e h same =
    subst (λ (x : Round). EvolvedAll (a ∷ l) x.1) (ok-injective _ _ same) (e, h)

-- The round after a prompt, from what the rest of the loop does.
after_prompt-Evolved :
    (a : Action) (l : List Action) (keys : List Key) (r : Round) (q : Prompted)
    → ((keys' : List Key) (r' : Round) → resolve_each l keys' ≡ ok r' → EvolvedAll l r'.1)
    → is_unresolved_conflict a ≡ true
    → prompt a keys ≡ ok q
    → after_prompt (resolve_each l) a l q ≡ ok r
    → EvolvedAll (a ∷ l) r.1
after_prompt-Evolved a l keys r (settled b rest) ih y e f =
    let (q, e', f') = >>=-eq-ok (resolve_each l rest) _ f in
    prepend-Evolved a b l q r (prompt-Evolved a keys y e) (ih rest q e') f'
after_prompt-Evolved a l keys r (ended res rest) ih y e f =
    subst (λ (x : Round). EvolvedAll (a ∷ l) x.1) (ok-injective _ _ f) (inl refl, EvolvedAll-refl l)

resolve_each-Evolved :
    (l : List Action) (keys : List Key) (r : Round) → resolve_each l keys ≡ ok r → EvolvedAll l r.1
unfolding resolve_each
resolve_each-Evolved [] keys r h = subst (λ (x : Round). EvolvedAll [] x.1) (ok-injective _ _ h) tt
resolve_each-Evolved (a ∷ l) keys r h = elim (Bool-cases (is_unresolved_conflict a)) [
  | inr n ↦
      let (q, e, f) = >>=-eq-ok (resolve_each l keys) _ (rw (n, resolve_each) at h) in
      prepend-Evolved a a l q r (inl refl) (resolve_each-Evolved l keys q e) f
  | inl y ↦
      let (q, e, f) = >>=-eq-ok (prompt a keys) _ (rw (y, resolve_each) at h) in
      after_prompt-Evolved a l keys r q (resolve_each-Evolved l) y e f
]

finish_round-Evolved :
    (l : List Action) (r : Round) (out : AllResolution × List Action)
    → EvolvedAll l r.1
    → finish_round r ≡ ok out
    → EvolvedAll l out.1
finish_round-Evolved l (some res, bs, keys) out h e =
    subst (λ (x : AllResolution × List Action). EvolvedAll l x.1) (ok-injective _ _ e) h
finish_round-Evolved l (none, bs, keys) out h e =
    let (q, e', f) = >>=-eq-ok (confirm keys) _ e in
    subst (λ (x : AllResolution × List Action). EvolvedAll l x.1) (ok-injective _ _ f) h

-- However the dialogue goes and wherever it is left, if it does not fail, the plan keeps its length
-- and order: each action is as it was, or was an open conflict and is now resolved to one of its
-- sides.
pub resolve_sequential-Evolved :
    (actions : List Action) (keys : List Key) (out : AllResolution × List Action)
    → resolve_sequential actions keys ≡ ok out
    → EvolvedAll actions out.1
unfolding resolve_sequential
resolve_sequential-Evolved actions keys out h =
    elim (Bool-cases (ltb 0 (num_unresolved_conflicts actions))) [
      | inr n ↦
          finish_round-Evolved actions (none, actions, keys) out (EvolvedAll-refl actions)
            (rw (n, resolve_sequential) at h)
      | inl y ↦
          let (r, e, f) =
            >>=-eq-ok (resolve_each actions keys) _ (rw (y, resolve_sequential) at h) in
          finish_round-Evolved actions r out (resolve_each-Evolved actions keys r e) f
    ]
