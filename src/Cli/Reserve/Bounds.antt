-- ===== src/Cli/Reserve/Bounds.antt =====
-- What `StagingReserve::from_str` returns is in range, and it does not panic.
use duet.Prelude.{
  ℕ, ◌+◌, ◌*◌, ◌^◌, ◌<◌, ◌≤◌, ◌≡◌, ◌≢◌, List, [], ◌∷◌, ◌++◌, length, length-append, all, Bool, true,
  false, not, ◌&&◌, ◌||◌, ltb, refl, arith, Option, none, some, Result, ok, err, guard, ◌>>=◌,
  Bool-cases, Option-cases, inl, inr, subst, ◌>>◌,
}
use duet.Ord.{◌=?◌, nat_ord}
use duet.Ord.Lexicographic.{list_ord}
use duet.Text.{Text, is_empty, strip_suffix, is_ascii_digit, parse_u16, decimal, utf8, as_bytes}
use duet.Sync.Staging.{StagingReserve, bytes, basis_points}
use duet.Cli.Reserve.{
  from_str, percentage, fraction_points, parsed_or, parse_size, ok_or, checked_u16, checked_u64,
  ReserveError, surrounded, invalid_size, not_a_number, too_many_places, out_of_range,
  not_below_hundred, unwrap_failed, trim, whole_and_fraction,
}

-- A result that is no panic and, if it is a reserve, within its range.
abbrev pub IsSound : Result ReserveError StagingReserve → Type 0
IsSound (err fault) = fault ≢ unwrap_failed
IsSound (ok (bytes n)) = n < 2 ^ 64
IsSound (ok (basis_points points)) = points < 10000

utf8-digit : (c : ℕ) → all is_ascii_digit (utf8 c) ≡ true → is_ascii_digit c ≡ true
unfolding utf8 is_ascii_digit
utf8-digit c h = ground arith

utf8-length : (c : ℕ) → 1 ≤ length (utf8 c)
unfolding utf8
utf8-length c = ground arith

all-append :
    (front back : List ℕ)
    → all is_ascii_digit (front ++ back) ≡ true
    → (all is_ascii_digit front ≡ true) × (all is_ascii_digit back ≡ true)
all-append [] back h = (refl, h)
all-append (c ∷ front) back h = elim (Bool-cases (is_ascii_digit c)) [
  | inl y ↦
      (let (p, q) =
          all-append front back
            (subst (λ t. (t && all is_ascii_digit (front ++ back)) ≡ true) y h) in
        (rw y p, q))
  | inr n ↦ ground arith
]

parse_one : (c : ℕ) → is_ascii_digit c ≡ true → (n : ℕ) × (parse_u16 (c ∷ []) ≡ some n)
unfolding parse_u16 decimal is_ascii_digit
parse_one c h = (decimal 0 (c ∷ []), ground arith)

parse_pair :
    (c d : ℕ)
    → is_ascii_digit c ≡ true
    → is_ascii_digit d ≡ true
    → (n : ℕ) × (parse_u16 (c ∷ d ∷ []) ≡ some n)
unfolding parse_u16 decimal is_ascii_digit
parse_pair c d h k = (decimal 0 (c ∷ d ∷ []), ground arith)

as_bytes-length : (c d x : ℕ) (rest : Text) → 2 < length (as_bytes (c ∷ d ∷ x ∷ rest))
unfolding as_bytes
as_bytes-length c d x rest = omega (
  arith,
  length-append (utf8 c) (utf8 d ++ (utf8 x ++ as_bytes rest)),
  length-append (utf8 d) (utf8 x ++ as_bytes rest),
  length-append (utf8 x) (as_bytes rest),
  utf8-length c,
  utf8-length d,
  utf8-length x,
)

-- A fraction of at most two digits is read.
fraction_points-ok :
    (fraction : Text)
    → all is_ascii_digit (as_bytes fraction) ≡ true
    → ltb 2 (length (as_bytes fraction)) ≡ false
    → (n : ℕ) × (fraction_points fraction ≡ ok n)
unfolding fraction_points parsed_or as_bytes
fraction_points-ok [] h k = (0, refl)
fraction_points-ok (c ∷ []) h k =
    let (p, _) = all-append (utf8 c) [] h in
    let (n, e) = parse_one c (utf8-digit c p) in (n * 10, rw e refl)
fraction_points-ok (c ∷ d ∷ []) h k =
    let (p, q) = all-append (utf8 c) (utf8 d ++ []) h in
    let (r, _) = all-append (utf8 d) [] q in
    let (n, e) = parse_pair c d (utf8-digit c p) (utf8-digit d r) in (n, rw e refl)
fraction_points-ok (c ∷ d ∷ x ∷ rest) h k =
    let long = as_bytes-length c d x rest in absurd (ground arith)

-- A result that is no panic.
abbrev NoPanic : {A : Type 0} → Result ReserveError A → Type 0
NoPanic (err fault) = fault ≢ unwrap_failed
NoPanic (ok _) = Unit

IsSound->>= :
    {A : Type 0} (first : Result ReserveError A) (next : A → Result ReserveError StagingReserve)
    → NoPanic first
    → ((a : A) → first ≡ ok a → IsSound (next a))
    → IsSound (first >>= next)
IsSound->>= (err fault) next h k = h
IsSound->>= (ok a) next h k = k a refl

guard-NoPanic :
    (test : Bool) (fault : ReserveError) → fault ≢ unwrap_failed → NoPanic (guard test fault)
guard-NoPanic true fault h = tt
guard-NoPanic false fault h = h

ok_or-NoPanic :
    (fault : ReserveError) (found : Option ℕ) → fault ≢ unwrap_failed → NoPanic (ok_or fault found)
ok_or-NoPanic fault none h = h
ok_or-NoPanic fault (some n) h = tt

checked_u16-NoPanic : (n : ℕ) → NoPanic (checked_u16 n)
unfolding checked_u16
checked_u16-NoPanic n = elim (Bool-cases (ltb n 65536)) [ inl y ↦ rw y tt | inr e ↦ rw e (λ h. cc) ]

fraction_points-NoPanic :
    (fraction : Text) (n : ℕ) → fraction_points fraction ≡ ok n → NoPanic (fraction_points fraction)
fraction_points-NoPanic fraction n h = rw h tt

below-hundred : (n : ℕ) → guard (ltb n 10000) not_below_hundred ≡ ok tt → n < 10000
below-hundred n h = ground arith

parsed_or-NoPanic :
    (fault : ReserveError) (text : Text) → fault ≢ unwrap_failed → NoPanic (parsed_or fault text)
unfolding parsed_or
parsed_or-NoPanic fault text h = ok_or-NoPanic fault (parse_u16 text) h

checks-passed :
    (empty lone digits long decimals : Bool)
    → guard (not (empty || (lone || (not digits || (long || not decimals))))) too_many_places
      ≡ ok tt
    → (decimals ≡ true) × (long ≡ false)
checks-passed true lone digits long decimals h = cc
checks-passed false true digits long decimals h = cc
checks-passed false false false long decimals h = cc
checks-passed false false true true decimals h = cc
checks-passed false false true false true h = (refl, refl)
checks-passed false false true false false h = cc

percentage-IsSound :
    (whole fraction : Text) (has_point : Bool) → IsSound (percentage whole fraction has_point)
unfolding percentage
percentage-IsSound whole fraction has_point =
    let digits = all is_ascii_digit (as_bytes fraction) in
    let long = ltb 2 (length (as_bytes fraction)) in
    IsSound->>= (guard _ too_many_places) _ (guard-NoPanic _ too_many_places (λ h. cc)) (λ _ g.
      let (d, l) =
        checks-passed (is_empty whole) (has_point && is_empty fraction)
          (all is_ascii_digit (as_bytes whole)) long digits g in
      let (n, e) = fraction_points-ok fraction d l in
      IsSound->>= (parsed_or out_of_range whole) _ (parsed_or-NoPanic out_of_range whole (λ h. cc))
        (λ w _.
          IsSound->>= (fraction_points fraction) _ (fraction_points-NoPanic fraction n e) (λ f _.
            IsSound->>= (checked_u16 (w * 100)) _ (checked_u16-NoPanic (w * 100)) (λ s _.
              IsSound->>= (checked_u16 (s + f)) _ (checked_u16-NoPanic (s + f)) (λ sum _.
                IsSound->>= (guard (ltb sum 10000) not_below_hundred) _
                  (guard-NoPanic (ltb sum 10000) not_below_hundred (λ h. cc))
                  (λ _ b. below-hundred sum b))))))

guarded :
    (test : Bool) (fault : ReserveError) (next : Result ReserveError StagingReserve)
    → fault ≢ unwrap_failed
    → IsSound next
    → IsSound (guard test fault >> next)
guarded true fault next h k = k
guarded false fault next h k = h

checked_u64-IsSound : (n : ℕ) → IsSound (checked_u64 n >>= (λ n. ok (bytes n)))
unfolding checked_u64
checked_u64-IsSound n = elim (Bool-cases (ltb n (2 ^ 64))) [
  | inl y ↦ rw y (ground arith)
  | inr e ↦ rw e (λ h. cc)
]

>>=_assoc :
    {A B C : Type 0} (m : Result ReserveError A) (f : A → Result ReserveError B)
    (g : B → Result ReserveError C)
    → ((m >>= f) >>= g) ≡ (m >>= (λ a. f a >>= g))
>>=_assoc (err fault) f g = refl
>>=_assoc (ok a) f g = refl

parse_size-IsSound :
    (parse_str : Text → Option ℕ) (value : Text)
    → IsSound (parse_size parse_str value >>= (λ n. ok (bytes n)))
unfolding parse_size
parse_size-IsSound parse_str value =
    rw
      (
        >>=_assoc (guard _ surrounded) (λ _. ok_or invalid_size (parse_str value) >>= checked_u64)
            (λ n. ok (bytes n)),
        >>=_assoc (ok_or invalid_size (parse_str value)) checked_u64 (λ n. ok (bytes n)),
      )
      (IsSound->>= (guard _ surrounded) _ (guard-NoPanic _ surrounded (λ h. cc)) (λ _ _.
        IsSound->>= (ok_or invalid_size (parse_str value)) _
          (ok_or-NoPanic invalid_size (parse_str value) (λ h. cc)) (λ n _. checked_u64-IsSound n)))

-- Whatever the reader of sizes does, reading a reserve does not panic, and a reserve that is read is a
-- number of bytes that fits 64 bits or a share of less than 100 percent.
pub from_str-IsSound :
    (parse_str : Text → Option ℕ) (value : Text) → IsSound (from_str parse_str value)
unfolding from_str
from_str-IsSound parse_str value = elim (Option-cases (strip_suffix b'%' value)) [
  | inl e ↦ rw (e, from_str) (parse_size-IsSound parse_str value)
  | inr (percent, e) ↦
      rw (e, from_str)
        (guarded (not (is_empty percent || not (trim percent =? percent))) not_a_number _ (λ h. cc)
          (percentage-IsSound (whole_and_fraction percent).0 (whole_and_fraction percent).1
            (whole_and_fraction percent).2))
]
