-- ===== src/Sync/Validate/Signatures.antt =====
-- What `next_signature` takes from the peer's signatures.
use duet.Prelude.{ℕ, List, [], ◌∷◌, ◌<◌, ◌≤◌, ◌≡◌, ◌↔◌, ok, guard, >>=-eq-ok, refl, arith, subst}
use duet.Ord.{◌=?◌, =?_iff}
use duet.Ord.Lexicographic.{list_ord}
use duet.FilePath.{FilePath, component_ord}
use duet.Sync.Validate.{
  next_signature, validate_signature_window, max_signature_window, path_mismatch,
}
use duet.Sync.Validate.Laws.{guard-eq-ok}

validate_signature_window-bounds :
    (w : ℕ) → (validate_signature_window w ≡ ok tt) ↔ ((0 < w) × (w ≤ max_signature_window))
unfolding validate_signature_window
validate_signature_window-bounds w = (λ h. (ground arith, ground arith), λ (p, q). ground arith)

-- The next signature is handed out exactly where there is one, for the path that is asked for, with
-- a window between 1 and the largest one; the iterator then stands after it.
pub next_signature_lem :
    {S : Type 0} (window : S → ℕ) (sig_iter : List (FilePath × S)) (path : FilePath) (signature : S)
    (rest : List (FilePath × S))
    → (next_signature window sig_iter path ≡ ok (signature, rest)) ↔ (
        (sig_iter ≡ (path, signature) ∷ rest)
        × (0 < window signature)
        × (window signature ≤ max_signature_window))
unfolding next_signature
next_signature_lem window [] path signature rest = (λ h. cc, λ (h, _, _). cc)
next_signature_lem window ((found, first) ∷ sig_iter) path signature rest = (
  λ h.
      (let (_, e, f) = >>=-eq-ok (guard (found =? path) path_mismatch) _ h in
        let (_, g, k) = >>=-eq-ok (validate_signature_window (window first)) _ f in
        let p = (=?_iff found path).0 (guard-eq-ok (found =? path) _ e) in
        let q : first ≡ signature = cc in
        let r : sig_iter ≡ rest = cc in
        let (low, high) = (validate_signature_window-bounds (window first)).0 g in
        (
          rw (p, q, r) refl,
          subst (λ s. 0 < window s) q low,
          subst (λ s. window s ≤ max_signature_window) q high,
        )),
  λ (e, low, high).
      (let p : found ≡ path = cc in
        let q : first ≡ signature = cc in
        let r : sig_iter ≡ rest = cc in
        rw
          (
            p,
            (=?_iff path path).1 refl,
            q,
            r,
            (validate_signature_window-bounds (window signature)).1 (low, high),
          )
          refl),
)
