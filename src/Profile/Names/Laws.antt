-- ===== src/Profile/Names/Laws.antt =====
-- Ids that are accepted are names of files.
use duet.Prelude.{
  ℕ, ◌<◌, ◌/◌, ◌%◌, List, [], ◌∷◌, Bool, true, false, not, ◌&&◌, ◌||◌, ◌==◌, ok, guard, all, All,
  ◌≡◌, refl, arith,
}
use duet.FilePath.Spelling
use duet.FilePath.Spelling.{is_dot, is_dot_dot, slash}
use duet.FilePath.Spelling.Laws.{IsName, HasNoSlash}
use duet.Text.{Text, is_empty, utf8, as_bytes}
use duet.Profile.Names.{
  validate_remote_state_id, format_client_id, hex_digit, is_id_char, contains,
  invalid_remote_state_id,
}

id_char-utf8 : (c : ℕ) → is_id_char c ≡ true → utf8 c ≡ c ∷ []
unfolding utf8
id_char-utf8 c h = ground arith

&&-true : (a b : Bool) → (a && b) ≡ true → (a ≡ true) × (b ≡ true)
&&-true true b h = (refl, h)
&&-true false b h = cc

-- A text of id characters is its own bytes, and holds no separator.
as_bytes-id : (id : Text) → all is_id_char id ≡ true → as_bytes id ≡ id
unfolding as_bytes
as_bytes-id [] h = refl
as_bytes-id (c ∷ id) h =
    let (p, q) = &&-true (is_id_char c) (all is_id_char id) h in
    rw (id_char-utf8 c p, as_bytes-id id q) refl

id_char-slash : (c : ℕ) → is_id_char c ≡ true → (c == slash) ≡ false
id_char-slash c h = ground arith

id_char-backslash : (c : ℕ) → is_id_char c ≡ true → (c == b'\\') ≡ false
id_char-backslash c h = ground arith

id-HasNoSlash : (id : Text) → all is_id_char id ≡ true → HasNoSlash id
id-HasNoSlash [] h = tt
id-HasNoSlash (c ∷ id) h =
    let (p, q) = &&-true (is_id_char c) (all is_id_char id) h in
    (id_char-slash c p, id-HasNoSlash id q)

id-contains :
    (id : Text)
    → all is_id_char id ≡ true
    → (contains slash id ≡ false) × (contains b'\\' id ≡ false)
id-contains [] h = (refl, refl)
id-contains (c ∷ id) h =
    let (p, q) = &&-true (is_id_char c) (all is_id_char id) h in
    let (e, f) = id-contains id q in (rw (id_char-slash c p) e, rw (id_char-backslash c p) f)

checks-passed :
    (empty dot dots slashes backslashes chars : Bool)
    → guard
        (not (empty || (dot || (dots || (slashes || (backslashes || not chars))))))
        invalid_remote_state_id
      ≡ ok tt
    → (empty ≡ false) × (dot ≡ false) × (dots ≡ false) × (chars ≡ true)
checks-passed empty dot dots slashes backslashes chars h =
    (ground arith, ground arith, ground arith, ground arith)

-- An id that is accepted is, in bytes, the name of a file: it does not lead out of the directory of
-- the states, whatever the peer sends.
pub validate_remote_state_id_lem :
    (id : Text) → validate_remote_state_id id ≡ ok tt → (as_bytes id ≡ id) × IsName (as_bytes id)
unfolding validate_remote_state_id
validate_remote_state_id_lem id h =
    let (e, d, dd, c) =
      checks-passed (is_empty id) (is_dot id) (is_dot_dot id) (contains slash id)
        (contains b'\\' id) (all is_id_char id) h in
    let b = as_bytes-id id c in (b, rw b ((id-HasNoSlash id c, same_empty id e, d), dd))
  where
    same_empty : (id : Text) → is_empty id ≡ false → Spelling.is_empty id ≡ false
    same_empty [] e = cc
    same_empty (c ∷ id) e = refl

hex_digit-is_id_char : (n : ℕ) → n < 16 → is_id_char (hex_digit n) ≡ true
unfolding hex_digit
hex_digit-is_id_char n h = ground arith

hex_digit-dot : (n : ℕ) → n < 16 → (hex_digit n == b'.') ≡ false
unfolding hex_digit
hex_digit-dot n h = ground arith

format-all :
    (bytes : List ℕ) → All (λ b. b < 256) bytes → all is_id_char (format_client_id bytes) ≡ true
unfolding format_client_id
format-all [] h = refl
format-all (b ∷ bytes) (p, h) =
    rw (hex_digit-is_id_char (b / 16) (omega arith), hex_digit-is_id_char (b % 16) (omega arith))
      (format-all bytes h)

-- An id that is made from random bytes, one or more, is accepted.
pub format_client_id-validate_remote_state_id :
    (byte : ℕ) (bytes : List ℕ)
    → All (λ b. b < 256) (byte ∷ bytes)
    → validate_remote_state_id (format_client_id (byte ∷ bytes)) ≡ ok tt
unfolding validate_remote_state_id
format_client_id-validate_remote_state_id byte bytes h =
    let c = format-all (byte ∷ bytes) h in
    let (e, f) = id-contains (format_client_id (byte ∷ bytes)) c in
    rw (nonempty byte bytes, no_dot byte bytes, no_dots byte bytes h, e, f, c) refl
  where
    nonempty : (byte : ℕ) (bytes : List ℕ) → is_empty (format_client_id (byte ∷ bytes)) ≡ false
    nonempty byte bytes = unfold format_client_id in refl

    no_dot : (byte : ℕ) (bytes : List ℕ) → is_dot (format_client_id (byte ∷ bytes)) ≡ false
    no_dot byte bytes = unfold format_client_id in refl

    no_dots :
        (byte : ℕ) (bytes : List ℕ)
        → All (λ b. b < 256) (byte ∷ bytes)
        → is_dot_dot (format_client_id (byte ∷ bytes)) ≡ false
    no_dots byte [] (p, h) =
        unfold format_client_id in rw (hex_digit-dot (byte / 16) (omega arith)) refl
    no_dots byte (next ∷ bytes) (p, h) = unfold format_client_id in refl
