-- ===== src/Sync/Validate/Laws.antt =====
-- Which paths and actions the checks accept.
use duet.Prelude.{
  ℕ, List, [], ◌∷◌, Bool, true, false, not, ◌||◌, Result, ok, guard, any, if◌then◌else◌, All,
  filter_map, ap, ◌∙◌, push_some, Option, some, sym, subst, ◌≡◌, ◌↔◌, refl, arith, >>=-eq-ok, map,
  Bool-cases, inl, inr,
}
use duet.FilePath.{FilePath, Component, normal, parent_dir}
use duet.FilePath.Spelling.{
  RawPath, split, components, is_dot, is_empty, is_dot_dot, spell, component, leading,
}
use duet.FilePath.Spelling.Laws.{
  IsName, HasNoSlash, components-spell, All-HasNoSlash, split-spell, spell-split, split-HasNoSlash,
  map-normal-injective, split-cons,
}
use duet.Sync.Validate.{
  validate_component, for_each, validate_relative_path_components, validate_relative_path,
  validate_canonical_entry_path, not_canonical,
}

-- A loop of checks succeeds exactly where every check does.
pub for_each-All {ℓ κ} :
    {A : Type ℓ} {E : Type κ} (check : A → Result E (Unit {0})) (items : List A)
    → (for_each check items ≡ ok tt) ↔ All (λ item. check item ≡ ok tt) items
unfolding for_each
for_each-All check [] = (λ _. tt, λ _. refl)
for_each-All check (item ∷ items) = (
  λ h. (let (_, e, f) = >>=-eq-ok (check item) _ h in (e, (for_each-All check items).0 f)),
  λ (e, f). rw (e, (for_each-All check items).1 f) refl,
)

-- What the scan of the bytes refuses in a part.
abbrev pub is_alias : List ℕ → Bool
is_alias part = is_empty part || is_dot part

not-is_alias :
    (part : List ℕ) (parts : List (List ℕ))
    → any is_alias (part ∷ parts) ≡ false
    → (is_empty part ≡ false) × (is_dot part ≡ false) × (any is_alias parts ≡ false)
not-is_alias part parts h = elim (Bool-cases (is_empty part)) [
  | inl e ↦ ground arith
  | inr e ↦ elim (Bool-cases (is_dot part)) [ inl d ↦ ground arith | inr d ↦ (e, d, ground arith) ]
]

component-part :
    (part : List ℕ)
    → is_empty part ≡ false
    → is_dot part ≡ false
    → component part ≡ (if is_dot_dot part then some parent_dir else some (normal part))
unfolding component
component-part part e d = rw (e, d) refl

-- A name is accepted as a component, `..` is not.
component-accepted :
    (part : List ℕ) (found : Option Component) (rest : FilePath)
    → found ≡ (if is_dot_dot part then some parent_dir else some (normal part))
    → for_each validate_component (push_some found rest) ≡ ok tt
    → (is_dot_dot part ≡ false) × (for_each validate_component rest ≡ ok tt)
unfolding for_each validate_component
component-accepted part found rest c v = elim (Bool-cases (is_dot_dot part)) [
  | inl y ↦ ground arith
  | inr n ↦ ground arith
]

parts-IsName :
    (parts : List (List ℕ))
    → All HasNoSlash parts
    → any is_alias parts ≡ false
    → for_each validate_component (filter_map component parts) ≡ ok tt
    → All IsName parts
parts-IsName [] s c v = tt
parts-IsName (part ∷ parts) (s, ss) c v =
    let (e, d, c') = not-is_alias part parts c in
    let (dd, v') =
      component-accepted part (component part) (filter_map component parts)
        (component-part part e d) v in
    (((s, e, d), dd), parts-IsName parts ss c' v')

leading-part :
    (parts : List (List ℕ))
    → any is_alias parts ≡ false
    → leading parts ≡ filter_map component parts
unfolding leading
leading-part [] c = refl
leading-part ([] ∷ parts) c = cc
leading-part ((byte ∷ bytes) ∷ parts) c =
    let (e, d, c') = not-is_alias (byte ∷ bytes) parts c in rw d refl

pub guard-eq-ok {κ} :
    {E : Type κ} (test : Bool) (fault : E) → guard test fault ≡ ok tt → test ≡ true
guard-eq-ok true fault h = refl
guard-eq-ok false fault h = cc

canonical-names :
    (path : RawPath) → validate_canonical_entry_path path ≡ ok tt → All IsName (split path)
unfolding validate_canonical_entry_path validate_relative_path validate_relative_path_components
    components
canonical-names path h =
    let (_, e, f) = >>=-eq-ok (validate_relative_path path) _ h in
    let (_, e', _) = >>=-eq-ok (for_each validate_component (leading (split path))) _ e in
    let g = guard-eq-ok (not (is_empty path || any is_alias (split path))) not_canonical f in
    let c : any is_alias (split path) ≡ false = ground arith in
    parts-IsName (split path) (split-HasNoSlash path) c
      (subst (λ p. for_each validate_component p ≡ ok tt) (leading-part (split path) c) e')

normal-accepted : (names : List (List ℕ)) → for_each validate_component (map normal names) ≡ ok tt
unfolding for_each validate_component
normal-accepted [] = refl
normal-accepted (name ∷ names) = normal-accepted names

names-no-alias : (names : List (List ℕ)) → All IsName names → any is_alias names ≡ false
names-no-alias [] h = refl
names-no-alias (name ∷ names) (((_, e, d), _), h) = rw (e, d) (names-no-alias names h)

spell-nonempty :
    (name : List ℕ) (names : List (List ℕ)) → IsName name → is_empty (spell (name ∷ names)) ≡ false
unfolding spell
spell-nonempty name [] ((_, e, _), _) = e
spell-nonempty [] (next ∷ names) ((_, e, _), _) = cc
spell-nonempty (byte ∷ name) (next ∷ names) h = refl

names-accepted :
    (name : List ℕ) (names : List (List ℕ))
    → All IsName (name ∷ names)
    → validate_canonical_entry_path (spell (name ∷ names)) ≡ ok tt
unfolding validate_canonical_entry_path validate_relative_path validate_relative_path_components
names-accepted name names h =
    let (n, _) = h in
    rw
      (
        components-spell name names h,
        normal-accepted (name ∷ names),
        spell-nonempty name names n,
        split-spell name names (All-HasNoSlash (name ∷ names) h),
        names-no-alias (name ∷ names) h,
      )
      refl

-- One or more names with a slash between them.
abbrev pub IsEntryPath : RawPath → Type 0
IsEntryPath path =
    (name : List ℕ) × (names : List (List ℕ)) × All IsName (name ∷ names)
    × (path ≡ spell (name ∷ names))

-- The check of an entry's path accepts exactly the bytes that are one or more names with a slash
-- between them: no name is empty, `.` or `..`, or holds a slash.
pub validate_canonical_entry_path_lem :
    (path : RawPath)
    → (validate_canonical_entry_path path ≡ ok tt) ↔ (
        (name : List ℕ) × (names : List (List ℕ)) × (All IsName (name ∷ names))
        × (path ≡ spell (name ∷ names)))
unfolding validate_canonical_entry_path validate_relative_path validate_relative_path_components
validate_canonical_entry_path_lem path = (
  λ h.
      (let (name, names, e) = split-cons path in
        (
          name,
          names,
          subst (All IsName) e (canonical-names path h),
          subst (λ parts. path ≡ spell parts) e (sym (spell-split path)),
        )),
  λ (name, names, h, e).
      subst (λ p. validate_canonical_entry_path p ≡ ok tt) (sym e) (names-accepted name names h),
)

-- Two accepted paths with the same components are the same bytes: the check lets no alias of a path
-- through.
pub validate_canonical_entry_path-components :
    (left right : RawPath)
    → validate_canonical_entry_path left ≡ ok tt
    → validate_canonical_entry_path right ≡ ok tt
    → components left ≡ components right
    → left ≡ right
validate_canonical_entry_path-components left right h k e =
    let (name, names, f, p) = (validate_canonical_entry_path_lem left).0 h in
    let (other, others, g, q) = (validate_canonical_entry_path_lem right).0 k in
    let m : map normal (name ∷ names) ≡ map normal (other ∷ others) =
      sym (components-spell name names f)
      ∙ ap components (sym p)
      ∙ e
      ∙ ap components q
      ∙ components-spell other others g in
    p ∙ ap spell (map-normal-injective (name ∷ names) (other ∷ others) m) ∙ sym q
