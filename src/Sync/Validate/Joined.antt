-- ===== src/Sync/Validate/Joined.antt =====
-- `safe_join` stays below its base.
use duet.Prelude.{
  ℕ, List, [], ◌∷◌, ◌++◌, true, false, ◌==◌, Option, none, some, filter_map, push_some, ◌≡◌, ◌⊎◌,
  refl, arith, Bool-cases, inl, inr, any, map, ok, >>=-eq-ok, ok-injective, subst, sym, ◌∙◌, ap,
}
use duet.FilePath.{FilePath, Component, normal, parent_dir}
use duet.FilePath.Spelling.{
  RawPath, slash, split, is_dot, is_dot_dot, is_empty, component, leading, components, join,
}
use duet.FilePath.Spelling.Laws.{split-cons}
use duet.FilePath.Spelling.Join.{components-join}
use duet.Sync.Validate.{
  validate_component, for_each, validate_relative_path_components, validate_relative_path,
  is_normal, safe_join, names_no_entry,
}
use duet.Sync.Validate.Laws.{guard-eq-ok}

-- A part that is not the first becomes nothing, `..` or a name.
component-cases :
    (part : List ℕ)
    → (component part ≡ none)
      ⊎ (component part ≡ some parent_dir)
      ⊎ (component part ≡ some (normal part))
unfolding component
component-cases part = elim (Bool-cases (is_empty part)) [
  | inl e ↦ inl (rw e refl)
  | inr e ↦ elim (Bool-cases (is_dot part)) [
    | inl d ↦ inl (rw (e, d) refl)
    | inr d ↦ elim (Bool-cases (is_dot_dot part)) [
      | inl dd ↦ inr (inl (rw (e, d, dd) refl))
      | inr dd ↦ inr (inr (rw (e, d, dd) refl))
    ]
  ]
]

abbrev IsAccepted : FilePath → Type 0
IsAccepted path = for_each validate_component path ≡ ok tt

push_some-names :
    (found : Option Component) (part : List ℕ) (rest : FilePath) (names : List (List ℕ))
    → (found ≡ none) ⊎ (found ≡ some parent_dir) ⊎ (found ≡ some (normal part))
    → IsAccepted (push_some found rest)
    → (IsAccepted rest → (names : List (List ℕ)) × (rest ≡ map normal names))
    → (names : List (List ℕ)) × (push_some found rest ≡ map normal names)
unfolding for_each validate_component
push_some-names found part rest names (inl e) h k =
    let (names, f) = k (subst (λ o. IsAccepted (push_some o rest)) e h) in (names, rw (e, f) refl)
push_some-names found part rest names (inr (inl e)) h k =
    let h' = subst (λ o. IsAccepted (push_some o rest)) e h in cc
push_some-names found part rest names (inr (inr e)) h k =
    let (names, f) = k (subst (λ o. IsAccepted (push_some o rest)) e h) in
    (part ∷ names, rw (e, f) refl)

accepted-names :
    (parts : List (List ℕ))
    → IsAccepted (filter_map component parts)
    → (names : List (List ℕ)) × (filter_map component parts ≡ map normal names)
accepted-names [] h = ([], refl)
accepted-names (part ∷ parts) h =
    push_some-names (component part) part (filter_map component parts) [] (component-cases part) h
      (accepted-names parts)

-- Leading components: the root is refused, a `.` adds nothing to a base.
root-refused :
    {A : Type 0} (parts : List (List ℕ))
    → (part : List ℕ) (rest : List (List ℕ)) → parts ≡ part ∷ rest
    → IsAccepted (leading ([] ∷ parts))
    → A
unfolding leading for_each validate_component
root-refused parts part rest e h = let h' = subst (λ l. IsAccepted (leading ([] ∷ l))) e h in cc

relative-parts :
    (byte : ℕ) (bytes : List ℕ) (parts : List (List ℕ))
    → IsAccepted (leading ((byte ∷ bytes) ∷ parts))
    → IsAccepted (filter_map component ((byte ∷ bytes) ∷ parts))
      × (any is_normal (filter_map component ((byte ∷ bytes) ∷ parts))
          ≡ any is_normal (leading ((byte ∷ bytes) ∷ parts)))
unfolding leading component for_each validate_component
relative-parts byte bytes parts h = elim (Bool-cases (is_dot (byte ∷ bytes))) [
  | inl y ↦ (ground arith, ground arith)
  | inr n ↦ (ground arith, ground arith)
]

split-byte :
    (byte : ℕ) (rest : RawPath)
    → (split (byte ∷ rest) ≡ [] ∷ split rest)
      ⊎ ((byte == slash ≡ false)
          × ((part : List ℕ) × (parts : List (List ℕ)) × (split (byte ∷ rest)
                ≡ (byte ∷ part) ∷ parts)))
unfolding split
split-byte byte rest = elim (Bool-cases (byte == slash)) [
  | inl y ↦ inl (rw y refl)
  | inr n ↦ (let (part, parts, e) = split-cons rest in inr (n, (part, parts, rw (n, e) refl)))
]

split-parts :
    (byte : ℕ) (rest : RawPath)
    → IsAccepted (components (byte ∷ rest))
    → (byte == slash ≡ false)
      × IsAccepted (filter_map component (split (byte ∷ rest)))
      × (any is_normal (filter_map component (split (byte ∷ rest)))
          ≡ any is_normal (components (byte ∷ rest)))
unfolding components
split-parts byte rest h = elim (split-byte byte rest) [
  | inl y ↦
      (let (part, parts, e) = split-cons rest in
        root-refused (split rest) part parts e (subst (λ l. IsAccepted (leading l)) y h))
  | inr (n, (part, parts, e)) ↦
      (let (a, b) = relative-parts byte part parts (subst (λ l. IsAccepted (leading l)) e h) in
        (n, rw e a, rw e b))
]

-- A path accepted by `safe_join` is joined to one below the base: the components of the result are
-- those of the base, which is not empty, and then one or more names, and so no `..` and no root.
pub safe_join_lem :
    (byte : ℕ) (base path : RawPath) {out : RawPath}
    → safe_join (byte ∷ base) path ≡ ok out
    → (name : List ℕ) × (names : List (List ℕ)) × (components out
        ≡ components (byte ∷ base) ++ map normal (name ∷ names))
unfolding safe_join validate_relative_path validate_relative_path_components
safe_join_lem byte base path {out} h =
    let (_, v, f) = >>=-eq-ok (validate_relative_path path) _ h in
    let (_, a, g) = >>=-eq-ok (for_each validate_component (components path)) _ v in
    below path a (guard-eq-ok (any is_normal (components path)) names_no_entry g)
      (ok-injective _ _ f)
  where
    below :
        (path : RawPath)
        → IsAccepted (components path)
        → any is_normal (components path) ≡ true
        → join (byte ∷ base) path ≡ out
        → (name : List ℕ) × (names : List (List ℕ)) × (components out
            ≡ components (byte ∷ base) ++ map normal (name ∷ names))
    below [] a n e = unfold components split leading in cc
    below (first ∷ rest) a n e =
        let (r, b, c) = split-parts first rest a in
        let (names, d) = accepted-names (split (first ∷ rest)) b in
        some_name names
          (sym (ap components e)
            ∙ components-join byte base (first ∷ rest) r
            ∙ ap (λ p. components (byte ∷ base) ++ p) d)
          (ap (any is_normal) (sym d) ∙ c ∙ n)
      where
        some_name :
            (names : List (List ℕ))
            → components out ≡ components (byte ∷ base) ++ map normal names
            → any is_normal (map normal names) ≡ true
            → (name : List ℕ) × (names : List (List ℕ)) × (components out
                ≡ components (byte ∷ base) ++ map normal (name ∷ names))
        some_name [] e n = cc
        some_name (name ∷ names) e n = (name, names, e)
